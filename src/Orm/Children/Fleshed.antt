-- ===== src/Orm/Children/Fleshed.antt =====
-- What FleshenChildren of orm/load.go does to the objects in the heap.
use mathlib.Core.List.{append-nil, append_assoc}
use dyndao.Base.{
  ℕ, zero, suc, String, ◌≡◌, refl, ◌∙◌, ap, true, some, List, [], ◌∷◌, ◌++◌, length, length-append,
  get_elem?, set_elem, set_elem-same, Option-cases, inl, inr, sym, arith,
}
use dyndao.Base.Map.{Map, keys, insert}
use dyndao.Base.Outcome.{Outcome, ok, err, panic}
use dyndao.Value.{Value}
use dyndao.Schema.{get_table}
use dyndao.Object.{Object, Array, get}
use dyndao.Orm.{Act, Orm, pure, proceed, check_ctx, modify, ◌>>=◌, ◌>>◌}
use dyndao.Orm.Load.{retrieve_many}
use dyndao.Orm.Load.Loaded.{all_clean, gives_clean, retrieved_are_clean}
use dyndao.Orm.Tree.{Forest, load, store}
use dyndao.Orm.Children.{allocate, allocate_all, fleshen_each, fleshen_children}

-- The addresses of objects that stand one after the other
abbrev pub addresses : ℕ → List Object → Array
addresses n [] = []
addresses n (obj ∷ objs) = some n ∷ addresses (suc n) objs

all_clean-append :
    (xs ys : List Object) → all_clean xs ≡ true → all_clean ys ≡ true → all_clean (xs ++ ys) ≡ true
all_clean-append [] ys hx hy = hy
all_clean-append (x ∷ xs) ys hx hy = grind (arith, hx, all_clean-append xs ys, hy)

-- A write at an address of the first list
module _ {A : Type 0} (news : List A) where
  get_elem?-written :
      (base : List A) (at : ℕ) (old v : A)
      → get_elem? base at ≡ some old
      → get_elem? (set_elem base at v ++ news) at ≡ some v
  get_elem?-written [] at old v here = cc
  get_elem?-written (x ∷ base) zero old v here = refl
  get_elem?-written (x ∷ base) (suc at) old v here = get_elem?-written base at old v here

  set_elem-written :
      (base : List A) (at : ℕ) (old v w : A)
      → get_elem? base at ≡ some old
      → set_elem (set_elem base at v ++ news) at w ≡ set_elem base at w ++ news
  set_elem-written [] at old v w here = cc
  set_elem-written (x ∷ base) zero old v w here = refl
  set_elem-written (x ∷ base) (suc at) old v w here =
      ap (λ rest. x ∷ rest) (set_elem-written base at old v w here)

pub allocate_all-addresses :
    {S : Type 0} (o : Orm S) (objs : List Object) (h : Forest S)
    → allocate_all o objs h
      ≡ (ok (addresses (length h.objects) objs), record h { objects = h.objects ++ objs })
unfolding allocate_all allocate
allocate_all-addresses o [] h = rw (append-nil h.objects) refl
allocate_all-addresses o (obj ∷ objs) h =
    let one_more : length (h.objects ++ obj ∷ []) ≡ suc (length h.objects) =
      omega (arith, length-append h.objects (obj ∷ [])) in
    rw
      (
        allocate_all-addresses o objs (record h { objects = h.objects ++ obj ∷ [] }),
        one_more,
        append_assoc h.objects (obj ∷ []) objs,
      )
      refl

pure-state : {S A B : Type 0} (r : Outcome A) (b : B) (s : S) → (proceed r (λ a. pure b) s).1 ≡ s
pure-state (ok a) b s = refl
pure-state (err e) b s = refl
pure-state (panic p) b s = refl

module _ {S : Type 0} (o : Orm S) (at : ℕ) where
  -- What is done with the children of one type
  abbrev pub put_children :
      String → Value → String → List String → List Object → Act (Forest S) (Unit {0})
  put_children key value name names objs = do
    children ← allocate_all o objs
    obj ← load o at
    modify (store o at (record obj { children = insert name children obj.children }))
    fleshen_each o key value at names

module _ {S : Type 0} (o : Orm S) (base : List Object) (at : ℕ) (old : Object)
    (here : get_elem? base at ≡ some old) where
  -- Only the children of the object at the address differ, and what was added is clean.
  abbrev pub OnlyChildren : Forest S → Type 0
  OnlyChildren h =
      (children : Map Array) × (added : List Object) × (h.objects
        ≡ set_elem base at (record old { children = children }) ++ added)
      × (all_clean added ≡ true)

  after-OnlyChildren :
      (key : String) (value : Value) (name : String) (names : List String) (h : Forest S)
      → ((h' : Forest S) → OnlyChildren h' → OnlyChildren (fleshen_each o key value at names h').1)
      → OnlyChildren h
      → (ran : Outcome (List Object) × S) → gives_clean ran.0 ≡ true
      → OnlyChildren
          (proceed ran.0 (put_children o at key value name names) (record h { world = ran.1 })).1
  after-OnlyChildren key value name names h rest only (err e, w) clean = only
  after-OnlyChildren key value name names h rest only (panic p, w) clean = only
  after-OnlyChildren key value name names h rest (children, added, same, added_clean) (ok objs, w)
        clean =
      let now : Object = record old { children = children } in
      let more : Map Array = insert name (addresses (length h.objects) objs) children in
      let then' : Object = record old { children = more } in
      let moved : h.objects ++ objs ≡ set_elem base at now ++ (added ++ objs) =
        ap (λ os. os ++ objs) same ∙ append_assoc (set_elem base at now) added objs in
      let found : get_elem? (h.objects ++ objs) at ≡ some now =
        rw moved (get_elem?-written (added ++ objs) base at old now here) in
      let written : set_elem (h.objects ++ objs) at then'
          ≡ set_elem base at then' ++ (added ++ objs) =
        rw moved (set_elem-written (added ++ objs) base at old now then' here) in
      rw (allocate_all-addresses o objs (record h { world = w }), found)
        (rest (record { objects = set_elem (h.objects ++ objs) at then'; world = w })
          (more, added ++ objs, written, all_clean-append added objs added_clean clean))

  each-OnlyChildren :
      (key : String) (value : Value) (names : List String) (h : Forest S)
      → OnlyChildren h
      → OnlyChildren (fleshen_each o key value at names h).1
  unfolding fleshen_each
  each-OnlyChildren key value [] h only = only
  each-OnlyChildren key value (name ∷ names) h only =
      let query : Map Value = (key, value) ∷ [] in
      after-OnlyChildren key value name names h (each-OnlyChildren key value names) only
        (retrieve_many o name query h.world) (retrieved_are_clean o name "" [] [] query h.world).0

  -- However FleshenChildren ends, it changes nothing of the objects in memory but the children of the one
  -- that it is called on: its type, its values, its changes and its dirty flag stay, and so do all other
  -- objects. What it adds are clean objects without recorded changes.
  pub fleshen-OnlyChildren :
      (w : S) → OnlyChildren (fleshen_children o at (record { objects = base; world = w })).1
  unfolding fleshen_children check_ctx
  fleshen-OnlyChildren w =
      let start : (w' : S) → OnlyChildren (record { objects = base; world = w' }) = λ w'. (
        old.children,
        [],
        sym (append-nil (set_elem base at old) ∙ set_elem-same base at old here),
        refl,
      ) in
      elim (Option-cases (o.raw_conn.ctx_err w)) [
        | inr (e, done) ↦ rw (fleshen_children, check_ctx, done) (start w)
        | inl live ↦ elim (Option-cases (get_table o.schema old.object_type)) [
          | inl unknown ↦ rw (fleshen_children, check_ctx, live, here, unknown) (start w)
          | inr (t, known) ↦
              let each = fleshen_each o t.primary (get t.primary old) at (keys t.children) in
              let ran = each (record { objects = base; world = w }) in
              rw (fleshen_children, check_ctx, live, here, known, pure-state ran.0 at ran.1)
                (each-OnlyChildren t.primary (get t.primary old) (keys t.children)
                  (record { objects = base; world = w }) (start w))
        ]
      ]
