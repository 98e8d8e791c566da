-- ===== src/Orm/Tree/Shape.antt =====
-- What `recurseAndSave` of orm/save.go leaves of a tree: the links from parents to children.
use dyndao.Base.{
  ℕ, zero, suc, Option, some, List, [], ◌∷◌, ◌≡◌, refl, ap, map, get_elem?, set_elem, arith,
}
use dyndao.Base.Map.{Map}
use dyndao.Base.Int.{ℤ}
use dyndao.Value.{Value}
use dyndao.Schema.{Table}
use dyndao.Object.{Object, Array}
use dyndao.Orm.{Act, Orm}
use dyndao.Orm.Keeps.{Keeps}
use dyndao.Orm.Save.{save}
use dyndao.Orm.Write.Shape.{TreeHooks, set-children}
use dyndao.Orm.Save.Shape.{save-children}
use dyndao.Orm.Tree.Keeps.{save_array-Keeps, save_children-Keeps, recurse_and_save-Keeps}
use dyndao.Orm.Tree.{Forest, on_object, propagate, save_array, save_children, recurse_and_save}

-- The children of each object of a forest
abbrev pub shape_of : {S : Type 0} → Forest S → List (Map Array)
shape_of h = map (λ obj. obj.children) h.objects

set_elem-shape :
    (objs : List Object) (at : ℕ) (old new : Object)
    → get_elem? objs at ≡ some old
    → new.children ≡ old.children
    → map (λ obj. obj.children) (set_elem objs at new) ≡ map (λ obj. obj.children) objs
set_elem-shape [] at old new found same = refl
set_elem-shape (obj ∷ objs) zero old new found same = grind arith
set_elem-shape (obj ∷ objs) (suc at) old new found same =
    ap (λ rest. obj.children ∷ rest) (set_elem-shape objs at old new found same)

pub get_elem?-shape :
    (objs : List Object) (at : ℕ)
    → (obj : Object) → get_elem? objs at ≡ some obj
    → get_elem? (map (λ obj. obj.children) objs) at ≡ some obj.children
get_elem?-shape [] at obj found = grind arith
get_elem?-shape (x ∷ objs) zero obj found = grind arith
get_elem?-shape (x ∷ objs) (suc at) obj found = get_elem?-shape objs at obj found

module _ {S : Type 0} (o : Orm S) (hooks : TreeHooks S o) where
  pub on_object-shape : (tx : Option ℕ) (at : ℕ) → Keeps shape_of (on_object o at (save o tx))
  unfolding on_object
  on_object-shape tx at h = grind (arith, save-children o hooks, set_elem-shape)

  pub propagate-shape : (t : Table) (v : Value) (at : ℕ) → Keeps shape_of (propagate o t v at)
  unfolding propagate
  propagate-shape t v at h = grind (arith, set-children, set_elem-shape)

  pub save_array-shape :
      (f : ℕ → Act (Forest S) ℤ) (keeps : (at : ℕ) → Keeps shape_of (f at)) (t : Table) (v : Value)
      (children : Array)
      → Keeps shape_of (save_array o f t v children)
  save_array-shape f keeps t v = save_array-Keeps o shape_of propagate-shape f keeps t v

  pub save_children-shape :
      (f : ℕ → Act (Forest S) ℤ) (keeps : (at : ℕ) → Keeps shape_of (f at)) (t : Table) (v : Value)
      (children : Map Array)
      → Keeps shape_of (save_children o f t v children)
  save_children-shape f keeps t v = save_children-Keeps o shape_of propagate-shape f keeps t v

  pub recurse_and_save-shape :
      (fuel : ℕ) (tx : Option ℕ) (at : ℕ) → Keeps shape_of (recurse_and_save o fuel tx at)
  recurse_and_save-shape = recurse_and_save-Keeps o shape_of propagate-shape on_object-shape
