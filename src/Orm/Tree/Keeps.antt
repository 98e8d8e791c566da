-- ===== src/Orm/Tree/Keeps.antt =====
-- What `recurseAndSave` of orm/save.go leaves alone, if saving an object and handing down a key do.
use dyndao.Base.{ℕ, zero, suc, Option, none, some, [], ◌∷◌, refl, get_elem?}
use dyndao.Base.Map.{Map}
use dyndao.Base.Int.{ℤ}
use dyndao.Value.{Value}
use dyndao.Schema.{Table, get_table}
use dyndao.Object.{Object, Array, get}
use dyndao.Orm.{Act, Orm, pure, or_crash, ◌>>=◌, ◌>>◌}
use dyndao.Orm.Keeps.{Keeps, bind-Keeps, or_crash-Keeps}
use dyndao.Orm.Save.{save}
use dyndao.Orm.Tree.{
  Forest, load, on_object, propagate, save_array, save_children, recurse_and_save,
}

module _ {S : Type 0} (o : Orm S) where
  -- The rows and the children, as `recurse_and_save` treats them after the object itself
  abbrev pub after_load : (ℕ → Act (Forest S) ℤ) → ℤ → Object → Act (Forest S) ℤ
  after_load f rows obj = or_crash (get_table o.schema obj.object_type) >>= λ t.
      save_children o f t (get t.primary obj) obj.children >> pure rows

module _ {S C : Type 0} (o : Orm S) (part : Forest S → C)
    (propagate-Keeps : (t : Table) (v : Value) (at : ℕ) → Keeps part (propagate o t v at)) where
  module _ (f : ℕ → Act (Forest S) ℤ) (keeps : (at : ℕ) → Keeps part (f at)) (t : Table)
      (v : Value) where
    pub save_array-Keeps : (children : Array) → Keeps part (save_array o f t v children)
    unfolding save_array
    save_array-Keeps [] = λ h. refl
    save_array-Keeps (none ∷ rest) = λ h. refl
    save_array-Keeps (some at ∷ rest) =
        bind-Keeps part (propagate o t v at) (λ u. f at >> save_array o f t v rest)
          (propagate-Keeps t v at)
          (λ u.
            bind-Keeps part (f at) (λ n. save_array o f t v rest) (keeps at)
              (λ n. save_array-Keeps rest))

    pub save_children-Keeps : (children : Map Array) → Keeps part (save_children o f t v children)
    unfolding save_children
    save_children-Keeps [] = λ h. refl
    save_children-Keeps ((name, children) ∷ rest) =
        bind-Keeps part (save_array o f t v children) (λ u. save_children o f t v rest)
          (save_array-Keeps children) (λ u. save_children-Keeps rest)

  load-Keeps : (at : ℕ) → Keeps part (load o at)
  load-Keeps at h = or_crash-Keeps part (get_elem? h.objects at) h

  module _
      (on_object-Keeps : (tx : Option ℕ) (at : ℕ) → Keeps part (on_object o at (save o tx))) where
    pub recurse_and_save-Keeps :
        (fuel : ℕ) (tx : Option ℕ) (at : ℕ) → Keeps part (recurse_and_save o fuel tx at)
    unfolding recurse_and_save
    recurse_and_save-Keeps zero tx at = λ h. refl
    recurse_and_save-Keeps (suc fuel) tx at =
        let f = recurse_and_save o fuel tx in
        bind-Keeps part (on_object o at (save o tx)) (λ rows. load o at >>= after_load o f rows)
          (on_object-Keeps tx at)
          λ rows. bind-Keeps part (load o at) (after_load o f rows) (load-Keeps at) λ obj.
            bind-Keeps part (or_crash (get_table o.schema obj.object_type))
              (λ t. save_children o f t (get t.primary obj) obj.children >> pure rows)
              (or_crash-Keeps part (get_table o.schema obj.object_type))
              λ t.
                bind-Keeps part (save_children o f t (get t.primary obj) obj.children)
                  (λ u. pure rows)
                  (save_children-Keeps f (recurse_and_save-Keeps fuel tx) t (get t.primary obj)
                    obj.children)
                  (λ u h. refl)
