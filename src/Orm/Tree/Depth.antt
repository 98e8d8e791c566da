-- ===== src/Orm/Tree/Depth.antt =====
-- A tree of bounded depth in orm/save.go: `recurseAndSave` needs no more fuel than that.
use mathlib.Core.Path.{fun_ext}
use dyndao.Base.{
  ℕ, zero, suc, ◌+◌, Option, none, some, List, [], ◌∷◌, ◌≡◌, refl, ap, ◌∙◌, sym, get_elem?, arith,
}
use dyndao.Base.Map.{Map}
use dyndao.Base.Outcome.{Outcome, ok, err, panic}
use dyndao.Base.Int.{ℤ}
use dyndao.Value.{Value}
use dyndao.Schema.{Table, get_table}
use dyndao.Object.{Object, Array, get}
use dyndao.Orm.{Act, Orm, pure, or_crash, proceed, ◌>>=◌, ◌>>◌}
use dyndao.Orm.Keeps.{Keeps, or_crash-Keeps}
use dyndao.Orm.Save.{save}
use dyndao.Orm.Write.Shape.{TreeHooks}
use dyndao.Orm.Tree.{
  Forest, load, on_object, propagate, save_array, save_children, recurse_and_save,
}
use dyndao.Orm.Tree.Keeps.{after_load}
use dyndao.Orm.Tree.Shape.{
  shape_of, get_elem?-shape, on_object-shape, propagate-shape, save_array-shape,
  save_children-shape, recurse_and_save-shape,
}

-- A property of every object in an array, and in every array
abbrev pub Each : (ℕ → Type 0) → Array → Type 0
Each P [] = Unit
Each P (none ∷ rest) = Each P rest
Each P (some at ∷ rest) = P at × Each P rest

abbrev pub EachChild : (ℕ → Type 0) → Map Array → Type 0
EachChild P [] = Unit
EachChild P ((name, children) ∷ rest) = Each P children × EachChild P rest

abbrev EachFound : (ℕ → Type 0) → Option (Map Array) → Type 0
EachFound P none = Unit
EachFound P (some children) = EachChild P children

-- Below an address there are at most so many levels, its own one included.
unfoldable pub WithinDepth : ℕ → List (Map Array) → ℕ → Type 0
WithinDepth zero shape at = ⊥
WithinDepth (suc depth) shape at = EachFound (WithinDepth depth shape) (get_elem? shape at)

module _ (P Q : ℕ → Type 0) (weaker : (at : ℕ) → P at → Q at) where
  pub Each-weaken : (children : Array) → Each P children → Each Q children
  Each-weaken [] each = tt
  Each-weaken (none ∷ rest) each = Each-weaken rest each
  Each-weaken (some at ∷ rest) (first, each) = (weaker at first, Each-weaken rest each)

  pub EachChild-weaken : (children : Map Array) → EachChild P children → EachChild Q children
  EachChild-weaken [] each = tt
  EachChild-weaken ((name, children) ∷ rest) (first, each) =
      (Each-weaken children first, EachChild-weaken rest each)

  EachFound-weaken : (found : Option (Map Array)) → EachFound P found → EachFound Q found
  EachFound-weaken none each = tt
  EachFound-weaken (some children) each = EachChild-weaken children each

module _ {S : Type 0} (o : Orm S) where
  -- The recursion over so many levels, with `last` in place of the stack overflow
  abbrev pub with_last : (ℕ → Act (Forest S) ℤ) → ℕ → Option ℕ → ℕ → Act (Forest S) ℤ
  with_last last zero tx at = last at
  with_last last (suc depth) tx at = on_object o at (save o tx) >>= λ rows.
      load o at >>= after_load o (with_last last depth tx) rows

  -- With more fuel the recursion goes on where the overflow would be.
  more-with_last :
      (extra depth : ℕ) (tx : Option ℕ) (at : ℕ)
      → recurse_and_save o (depth + extra) tx at
        ≡ with_last (recurse_and_save o extra tx) depth tx at
  unfolding recurse_and_save
  more-with_last extra zero tx at =
      let none_below : zero + extra ≡ extra = omega arith in
      ap (λ n. recurse_and_save o n tx at) none_below
  more-with_last extra (suc depth) tx at =
      let one_more : suc depth + extra ≡ suc (depth + extra) = omega arith in
      let below = fun_ext (more-with_last extra depth tx) in
      ap (λ n. recurse_and_save o n tx at) one_more
      ∙ ap (λ f. on_object o at (save o tx) >>= λ rows. load o at >>= after_load o f rows) below

module _ {S : Type 0} (o : Orm S) (hooks : TreeHooks S o) where
  module _ (shape : List (Map Array)) where
    -- On a forest of this shape the two actions do the same.
    abbrev SameAt : {A : Type 0} → Act (Forest S) A → Act (Forest S) A → Type 0
    SameAt m m' = (h : Forest S) → shape_of h ≡ shape → m' h ≡ m h

    proceed-SameAt :
        {A B : Type 0}
        → (r : Outcome B) (k k' : B → Act (Forest S) A) (h : Forest S) → shape_of h ≡ shape
        → ((b : B) → SameAt (k b) (k' b))
        → proceed r k' h ≡ proceed r k h
    proceed-SameAt (ok b) k k' h here rest = rest b h here
    proceed-SameAt (err e) k k' h here rest = refl
    proceed-SameAt (panic p) k k' h here rest = refl

    bind-SameAt :
        {A B : Type 0}
        → (m m' : Act (Forest S) B) (k k' : B → Act (Forest S) A) → Keeps shape_of m
        → SameAt m m'
        → ((b : B) → SameAt (k b) (k' b))
        → SameAt (m >>= k) (m' >>= k')
    bind-SameAt m m' k k' keeps first rest h here =
        rw (first h here) (proceed-SameAt (m h).0 k k' (m h).1 (keeps h ∙ here) rest)

    load-SameAt :
        {A : Type 0}
        → (at : ℕ) (k k' : Object → Act (Forest S) A)
        → ((obj : Object) → get_elem? shape at ≡ some obj.children → SameAt (k obj) (k' obj))
        → SameAt (load o at >>= k) (load o at >>= k')
    load-SameAt at k k' rest h here =
        elim (get_elem? h.objects at)
            as (λ found.
              get_elem? h.objects at ≡ found
              → (proceed (or_crash found h).0 k' (or_crash found h).1
                  ≡ proceed (or_crash found h).0 k (or_crash found h).1)) [
                    | none ↦ λ found. refl
                    | some obj ↦ λ found.
                        rest obj
                          (ap (λ s. get_elem? s at) (sym here)
                            ∙ get_elem?-shape h.objects at obj found)
                          h here
                  ]
          refl

    module _ (f f' : ℕ → Act (Forest S) ℤ) (keeps : (at : ℕ) → Keeps shape_of (f at))
        (P : ℕ → Type 0) (same : (at : ℕ) → P at → SameAt (f at) (f' at)) (t : Table)
        (v : Value) where
      save_array-SameAt :
          (children : Array)
          → Each P children
          → SameAt (save_array o f t v children) (save_array o f' t v children)
      unfolding save_array
      save_array-SameAt [] deep = λ h here. refl
      save_array-SameAt (none ∷ rest) deep = λ h here. refl
      save_array-SameAt (some at ∷ rest) (deep, deeper) =
          bind-SameAt (propagate o t v at) (propagate o t v at)
            (λ u. f at >> save_array o f t v rest) (λ u. f' at >> save_array o f' t v rest)
            (propagate-shape o hooks t v at) (λ h here. refl)
            (λ u.
              bind-SameAt (f at) (f' at) (λ n. save_array o f t v rest)
                (λ n. save_array o f' t v rest) (keeps at) (same at deep)
                (λ n. save_array-SameAt rest deeper))

      save_children-SameAt :
          (children : Map Array)
          → EachChild P children
          → SameAt (save_children o f t v children) (save_children o f' t v children)
      unfolding save_children
      save_children-SameAt [] deep = λ h here. refl
      save_children-SameAt ((name, children) ∷ rest) (deep, deeper) =
          bind-SameAt (save_array o f t v children) (save_array o f' t v children)
            (λ u. save_children o f t v rest) (λ u. save_children o f' t v rest)
            (save_array-shape o hooks f keeps t v children) (save_array-SameAt children deep)
            (λ u. save_children-SameAt rest deeper)

    -- Within the depth the end of the fuel is not met.
    any_last-SameAt :
        (last : ℕ → Act (Forest S) ℤ) (depth : ℕ) (tx : Option ℕ) (at : ℕ)
        → WithinDepth depth shape at
        → SameAt (recurse_and_save o depth tx at) (with_last o last depth tx at)
    unfolding recurse_and_save WithinDepth
    any_last-SameAt last zero tx at deep = absurd deep
    any_last-SameAt last (suc depth) tx at deep =
        let f = recurse_and_save o depth tx in
        let f' = with_last o last depth tx in
        bind-SameAt (on_object o at (save o tx)) (on_object o at (save o tx))
          (λ rows. load o at >>= after_load o f rows) (λ rows. load o at >>= after_load o f' rows)
          (on_object-shape o hooks tx at) (λ h here. refl)
          λ rows. load-SameAt at (after_load o f rows) (after_load o f' rows) λ obj found.
            bind-SameAt (or_crash (get_table o.schema obj.object_type))
              (or_crash (get_table o.schema obj.object_type))
              (λ t. save_children o f t (get t.primary obj) obj.children >> pure rows)
              (λ t. save_children o f' t (get t.primary obj) obj.children >> pure rows)
              (or_crash-Keeps shape_of (get_table o.schema obj.object_type)) (λ h here. refl)
              λ t.
                bind-SameAt (save_children o f t (get t.primary obj) obj.children)
                  (save_children o f' t (get t.primary obj) obj.children) (λ u. pure rows)
                  (λ u. pure rows)
                  (save_children-shape o hooks f (recurse_and_save-shape o hooks depth tx) t
                    (get t.primary obj) obj.children)
                  (save_children-SameAt f f' (recurse_and_save-shape o hooks depth tx)
                    (WithinDepth depth shape) (any_last-SameAt last depth tx) t (get t.primary obj)
                    obj.children (rw (found, WithinDepth) at deep))
                  (λ u h here. refl)

  -- With hooks that keep the children of their object: in a forest of any shape, where at most
  -- `depth` levels of objects hang below an address, that much fuel is enough to save the tree there,
  -- whatever fails on the way. The stack overflow is never met: with anything else in its place (`last`)
  -- the result and the state are the same, and so they are with more fuel. The links from parents to
  -- children stay as they were.
  pub depth_is_enough :
      (last : ℕ → Act (Forest S) ℤ) (extra depth : ℕ) (tx : Option ℕ) (at : ℕ) (h : Forest S)
      → WithinDepth depth (shape_of h) at
      → (with_last o last depth tx at h ≡ recurse_and_save o depth tx at h)
        × (recurse_and_save o (depth + extra) tx at h ≡ recurse_and_save o depth tx at h)
        × (shape_of (recurse_and_save o depth tx at h).1 ≡ shape_of h)
  depth_is_enough last extra depth tx at h deep = (
    any_last-SameAt (shape_of h) last depth tx at deep h refl,
    ap (λ m. m h) (more-with_last o extra depth tx at)
        ∙ any_last-SameAt (shape_of h) (recurse_and_save o extra tx) depth tx at deep h refl,
    recurse_and_save-shape o hooks depth tx at h,
  )
