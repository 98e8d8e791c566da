-- ===== src/Orm/Tree/Idle.antt =====
-- `SaveAll` of orm/save.go on a tree in which nothing is left to do.
use dyndao.Base.{
  ℕ, zero, suc, true, false, Option, none, some, List, [], ◌∷◌, ◌≡◌, refl, get_elem?, set_elem-same,
  arith, String,
}
use dyndao.Base.Map.{Map, lookup, contains, entries}
use dyndao.Base.Outcome.{ok}
use dyndao.Base.Int.{ℤ, pos}
use dyndao.Value.{Value, Std}
use dyndao.Schema.{Table, get_table}
use dyndao.Object.{Object, Array, get, set, is_dirty}
use dyndao.Object.Tracking.{redundant}
use dyndao.Orm.{Act, Orm, check_ctx}
use dyndao.Orm.Save.{save}
use dyndao.Orm.Save.Choice.{clean_is_skipped}
use dyndao.Orm.Tree.{
  Forest, on_object, propagate, save_array, save_children, recurse_and_save, save_all,
  save_all_inside_tx,
}

-- Every child is there, and this holds of its address.
abbrev EveryChild : (ℕ → Type 0) → Array → Type 0
EveryChild P [] = Unit
EveryChild P (none ∷ rest) = ⊥
EveryChild P (some at ∷ rest) = P at × EveryChild P rest

abbrev EveryArray : (ℕ → Type 0) → Map Array → Type 0
EveryArray P [] = Unit
EveryArray P ((name, children) ∷ rest) = EveryChild P children × EveryArray P rest

set-redundant :
    (s : Std) (k : String) (v : Value) (obj : Object)
    → redundant s k v obj ≡ true
    → set s k v obj ≡ obj
unfolding set
set-redundant s k v obj h = ground (arith, h)

module _ {S : Type 0} (o : Orm S) (objs : List Object) where
  -- The child is of a known table and holds the parent's key already, if its table has a column of
  -- that name.
  abbrev pub HasKey : Table → Value → ℕ → Type 0
  HasKey t pk_val at =
      (child : Object) × (child_table : Table) × (get_elem? objs at ≡ some child)
      × (lookup child.object_type o.schema.tables ≡ some child_table)
      × (contains t.primary (entries child_table.columns) ≡ true
          → redundant o.std t.primary pk_val child ≡ true)

  -- The tree at an address has at most so many levels; each object is clean and of a known table, and
  -- its children hold its key.
  unfoldable pub IsIdle : ℕ → ℕ → Type 0
  IsIdle zero at = ⊥
  IsIdle (suc depth) at =
      (obj : Object) × (t : Table) × (get_elem? objs at ≡ some obj)
      × (is_dirty obj ≡ false)
      × (get_table o.schema obj.object_type ≡ some t)
      × EveryArray (λ c. HasKey t (get t.primary obj) c × IsIdle depth c) obj.children

  module _ (w : S) (live : o.raw_conn.ctx_err w ≡ none) where
    abbrev forest : Forest S
    forest = record { objects = objs; world = w }

    propagate-idle :
        (t : Table) (pk_val : Value) (at : ℕ)
        → HasKey t pk_val at
        → propagate o t pk_val at forest ≡ (ok tt, forest)
    unfolding propagate
    propagate-idle t pk_val at (child, child_table, here, known, keyed) = grind (
      arith,
      here,
      known,
      keyed,
      set-redundant o.std t.primary pk_val child,
      set_elem-same objs at child here,
    )

    module _ (save_child : ℕ → Act (Forest S) ℤ) (P : ℕ → Type 0)
        (idle : (at : ℕ) → P at → save_child at forest ≡ (ok (pos 0), forest)) (t : Table)
        (pk_val : Value) where
      save_array-idle :
          (children : Array)
          → EveryChild (λ c. HasKey t pk_val c × P c) children
          → save_array o save_child t pk_val children forest ≡ (ok tt, forest)
      unfolding save_array
      save_array-idle [] every = refl
      save_array-idle (none ∷ rest) every = absurd every
      save_array-idle (some at ∷ rest) every =
          rw (propagate-idle t pk_val at every.0.0, idle at every.0.1)
            (save_array-idle rest every.1)

      save_children-idle :
          (children : Map Array)
          → EveryArray (λ c. HasKey t pk_val c × P c) children
          → save_children o save_child t pk_val children forest ≡ (ok tt, forest)
      unfolding save_children
      save_children-idle [] every = refl
      save_children-idle ((name, children) ∷ rest) every =
          rw (save_array-idle children every.0) (save_children-idle rest every.1)

    on_object-idle :
        (tx : Option ℕ) (at : ℕ) (obj : Object) (t : Table)
        → get_elem? objs at ≡ some obj
        → is_dirty obj ≡ false
        → get_table o.schema obj.object_type ≡ some t
        → on_object o at (save o tx) forest ≡ (ok (pos 0), forest)
    unfolding on_object
    on_object-idle tx at obj t here clean known =
        let skipped =
          (clean_is_skipped o tx (record { object = obj; world = w }) t live known clean).0 in
        grind (arith, here, skipped, set_elem-same objs at obj here)

    recurse_and_save-idle :
        (depth : ℕ) (tx : Option ℕ) (at : ℕ)
        → IsIdle depth at
        → recurse_and_save o depth tx at forest ≡ (ok (pos 0), forest)
    unfolding recurse_and_save IsIdle
    recurse_and_save-idle zero tx at idle = absurd idle
    recurse_and_save-idle (suc depth) tx at (obj, t, here, clean, known, every) =
        rw (recurse_and_save, on_object-idle tx at obj t here clean known, here, known)
          (rw
            (save_children-idle (recurse_and_save o depth tx) (IsIdle depth)
              (recurse_and_save-idle depth tx) t (get t.primary obj) obj.children every)
            refl)

  -- While the context lives, and where a transaction begins and commits: `SaveAll` of a tree whose
  -- objects are all clean and hold the keys of their parents returns 0 rows, leaves every object as it
  -- is, and asks nothing of the database but to begin and to commit. Fuel for the depth of the tree is
  -- enough.
  pub idle_tree_untouched :
      (depth at tx : ℕ) (w begun committed : S)
      → o.raw_conn.ctx_err w ≡ none
      → o.raw_conn.ctx_err begun ≡ none
      → o.raw_conn.begin_tx w ≡ (ok tx, begun)
      → o.raw_conn.commit tx begun ≡ (ok tt, committed)
      → IsIdle depth at
      → save_all o depth at (record { objects = objs; world = w })
        ≡ (ok (pos 0), record { objects = objs; world = committed })
  unfolding save_all save_all_inside_tx check_ctx
  idle_tree_untouched depth at tx w begun committed live live' begins commits idle = grind (
    arith,
    live,
    live',
    begins,
    commits,
    recurse_and_save-idle begun live' depth (some tx) at idle,
  )
