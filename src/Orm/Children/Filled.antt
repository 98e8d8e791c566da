-- ===== src/Orm/Children/Filled.antt =====
-- FleshenChildren of orm/load.go fills in the children of every child table.
use dyndao.Base.{
  ℕ, zero, suc, String, ◌≡◌, refl, Bool, true, false, ◌||◌, some, List, [], ◌∷◌, ◌++◌, All, length,
  get_elem?, set_elem, arith, ◌==◌, eq_iff, inl, inr, Option-cases,
}
use dyndao.Base.Map.{Map, keys, insert, contains, lookup-insert}
use dyndao.Base.Outcome.{Outcome, ok, err, panic}
use dyndao.Value.{Value}
use dyndao.Schema.{Table, get_table}
use dyndao.Object.{Object, Array, get}
use dyndao.Orm.{Orm, pure, proceed, check_ctx}
use dyndao.Orm.Post.{Post}
use dyndao.Orm.Load.{retrieve_many}
use dyndao.Orm.Tree.{Forest}
use dyndao.Orm.Children.{fleshen_each, fleshen_children}
use dyndao.Orm.Children.Fleshed.{
  addresses, allocate_all-addresses, put_children, OnlyChildren, fleshen-OnlyChildren,
}

abbrev pub listed : String → List String → Bool
listed n [] = false
listed n (name ∷ names) = (name == n) || listed n names

All-listed :
    (P : String → Type 0) (names : List String)
    → ((n : String) → listed n names ≡ true → P n)
    → All P names
All-listed P [] each = tt
All-listed P (name ∷ names) each = (
  each name (ground (arith, eq_iff name name)),
  All-listed P names (λ n found. each n (ground (arith, found))),
)

get_elem?-append :
    {A : Type 0} (xs ys : List A) (at : ℕ) (x : A)
    → get_elem? xs at ≡ some x
    → get_elem? (xs ++ ys) at ≡ some x
get_elem?-append [] ys at x here = cc
get_elem?-append (y ∷ xs) ys zero x here = here
get_elem?-append (y ∷ xs) ys (suc at) x here = get_elem?-append xs ys at x here

get_elem?-set_elem :
    {A : Type 0} (xs : List A) (at : ℕ) (x y : A)
    → get_elem? xs at ≡ some x
    → get_elem? (set_elem xs at y) at ≡ some y
get_elem?-set_elem [] at x y here = cc
get_elem?-set_elem (z ∷ xs) zero x y here = refl
get_elem?-set_elem (z ∷ xs) (suc at) x y here = get_elem?-set_elem xs at x y here

module _ {S : Type 0} (o : Orm S) (at : ℕ) (n : String) where
  -- The object has children under the name, or will be given some.
  abbrev pub HasChildren : List String → Forest S → Type 0
  HasChildren names h =
      (obj : Object) × (get_elem? h.objects at ≡ some obj)
      × ((contains n obj.children || listed n names) ≡ true)

  insert-HasChildren :
      (name : String) (names : List String) (children : Array) (before : Map Array)
      → (contains n before || listed n (name ∷ names)) ≡ true
      → (contains n (insert name children before) || listed n names) ≡ true
  unfolding contains
  insert-HasChildren name names children before h =
      ground (arith, h, lookup-insert name n children before, eq_iff name n)

  after-HasChildren :
      (key : String) (value : Value) (name : String) (names : List String) (h : Forest S)
      → ((h' : Forest S)
          → HasChildren names h'
          → Post (λ u. HasChildren []) (fleshen_each o key value at names h'))
      → HasChildren (name ∷ names) h
      → (ran : Outcome (List Object) × S)
      → Post
          (λ u. HasChildren [])
          (proceed ran.0 (put_children o at key value name names) (record h { world = ran.1 }))
  after-HasChildren key value name names h rest has (err e, w) = tt
  after-HasChildren key value name names h rest has (panic p, w) = tt
  after-HasChildren key value name names h rest (obj, here, wanted) (ok objs, w) =
      let more : Map Array = insert name (addresses (length h.objects) objs) obj.children in
      let grown : Object = record obj { children = more } in
      let found : get_elem? (h.objects ++ objs) at ≡ some obj =
        get_elem?-append h.objects objs at obj here in
      rw (allocate_all-addresses o objs (record h { world = w }), found)
        (rest (record { objects = set_elem (h.objects ++ objs) at grown; world = w })
          (
            grown,
            get_elem?-set_elem (h.objects ++ objs) at obj grown found,
            insert-HasChildren name names (addresses (length h.objects) objs) obj.children wanted,
          ))

  each-HasChildren :
      (key : String) (value : Value) (names : List String) (h : Forest S)
      → HasChildren names h
      → Post (λ u. HasChildren []) (fleshen_each o key value at names h)
  unfolding fleshen_each
  each-HasChildren key value [] h has = has
  each-HasChildren key value (name ∷ names) h has =
      after-HasChildren key value name names h (each-HasChildren key value names) has
        (retrieve_many o name ((key, value) ∷ []) h.world)

pure-Post :
    {S A B : Type 0} (P : S → Type 0) (r : Outcome A) (b : B) (s : S)
    → Post (λ a. P) (r, s)
    → Post (λ c. P) (proceed r (λ a. pure b) s)
pure-Post P (ok a) b s holds = holds
pure-Post P (err e) b s holds = tt
pure-Post P (panic p) b s holds = tt

module _ {S : Type 0} (o : Orm S) (base : List Object) (at : ℕ) (old : Object) (t : Table)
    (here : get_elem? base at ≡ some old)
    (known : get_table o.schema old.object_type ≡ some t) where
  fleshen-HasChildren :
      (n : String) (w : S)
      → listed n (keys t.children) ≡ true
      → Post
          (λ a. HasChildren o at n [])
          (fleshen_children o at (record { objects = base; world = w }))
  unfolding fleshen_children check_ctx
  fleshen-HasChildren n w is_child = elim (Option-cases (o.raw_conn.ctx_err w)) [
    | inr (e, done) ↦ rw (fleshen_children, check_ctx, done) tt
    | inl live ↦
        let h : Forest S = record { objects = base; world = w } in
        let ran = fleshen_each o t.primary (get t.primary old) at (keys t.children) h in
        rw (fleshen_children, check_ctx, live, here, known)
          (pure-Post (HasChildren o at n []) ran.0 at ran.1 (
            each-HasChildren o at n t.primary (get t.primary old) (keys t.children) h
              (old, here, ground (arith, is_child))))
  ]

  -- Of an object of a known table, however FleshenChildren ends: the object's type, its values, its
  -- changes and its dirty flag stay, and so do all other objects; what is added are clean objects without
  -- recorded changes. Where it succeeds, the object has children, perhaps none, under the name of
  -- every child table.
  pub fleshen_fills_children :
      (w : S)
      → let ran = fleshen_children o at (record { objects = base; world = w }) in
        OnlyChildren o base at old here ran.1
        × All (λ n. Post (λ a. HasChildren o at n []) ran) (keys t.children)
  fleshen_fills_children w = (
    fleshen-OnlyChildren o base at old here w,
    All-listed
        (λ n.
          Post (λ a. HasChildren o at n [])
            (fleshen_children o at (record { objects = base; world = w })))
        (keys t.children) (λ n. fleshen-HasChildren n w),
  )
