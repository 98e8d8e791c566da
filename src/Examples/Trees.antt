-- ===== src/Examples/Trees.antt =====
-- Saving a tree of a parent and its child.
use dyndao.Base.{◌≡◌, ◌≤◌, refl, List, [], ◌∷◌, some, All, arith}
use dyndao.Base.Map.{lookup}
use dyndao.Orm.{call_hook_if_needed, check_ctx}
use dyndao.Orm.Write.Shape.{TreeHooks}
use dyndao.Orm.Tree.{Forest, recurse_and_save, save_all}
use dyndao.Orm.Tree.All.{TreeSaved, saved_tree_is_clean}
use dyndao.Orm.Tree.Shape.{shape_of}
use dyndao.Orm.Tree.Depth.{WithinDepth, with_last, depth_is_enough}
use dyndao.Schema.{get_table}
use dyndao.Base.Int.{pos}
use dyndao.Base.Outcome.{ok}
use dyndao.Object.{Object, is_dirty}
use dyndao.Orm.Post.{Post}
use dyndao.Orm.Children.{fleshen_children}
use dyndao.Orm.Children.Fleshed.{OnlyChildren}
use dyndao.Orm.Children.Filled.{HasChildren, fleshen_fills_children}
use dyndao.Orm.Tree.Idle.{IsIdle, idle_tree_untouched}
use dyndao.Orm.Handles.{Counts}
use dyndao.Orm.Tree.Handles.{CountsTx, HooksClose, save_all_closes_statements}
use dyndao.Examples.Data.{
  World, world, note, orm, people, kin, kin_orm, person, new_person, saved_person,
}

abbrev family : Forest World
family = record {
  objects = record person { children = ("people", some 1 ∷ []) ∷ [] } ∷ new_person ∷ [];
  world = world;
}

-- No hooks are set.
orm-TreeHooks : TreeHooks World orm
unfolding call_hook_if_needed lookup
orm-TreeHooks = record {
  before_create = λ st. refl;
  after_create = λ st. refl;
  before_update = λ st. refl;
  after_update = λ st. refl;
}

-- A parent and a child are two levels.
depth_is_enough_example :
    (with_last orm (λ at h. (ok (pos 9), h)) 2 (some 7) 0 family
      ≡ recurse_and_save orm 2 (some 7) 0 family)
    × (recurse_and_save orm 5 (some 7) 0 family ≡ recurse_and_save orm 2 (some 7) 0 family)
    × (shape_of (recurse_and_save orm 2 (some 7) 0 family).1 ≡ shape_of family)
unfolding WithinDepth
depth_is_enough_example =
    depth_is_enough orm orm-TreeHooks (λ at h. (ok (pos 9), h)) 3 2 (some 7) 0 family ((tt, tt), tt)

-- A dirty parent, which is updated, and a clean child, which has the parent's key already
abbrev half_saved : Forest World
half_saved = record {
  objects = record person { children = ("people", some 1 ∷ []) ∷ [] } ∷ saved_person ∷ [];
  world = world;
}

saved_tree_is_clean_example :
    TreeSaved orm orm-TreeHooks 0 half_saved.objects (save_all orm 2 0 half_saved).1.objects
unfolding save_all recurse_and_save dyndao.Orm.Save.save get_table lookup is_dirty check_ctx
    dyndao.Orm.Tree.save_all_inside_tx dyndao.Base.Map.contains dyndao.Orm.Write.update
    call_hook_if_needed dyndao.Core.Update.binding_update
    dyndao.Core.Where.render_update_where_clause dyndao.Object.get dyndao.Schema.get_column
    dyndao.Core.Update.set_column dyndao.Core.Update.sql_value_convert
    dyndao.Adapters.Sqlite.Types.is_timestamp_type dyndao.Orm.stmt_from_db_or_tx
    dyndao.Core.Update.zero_time dyndao.Object.reset_changed_columns dyndao.Object.mark_dirty
    dyndao.Object.set dyndao.Orm.Write.maybe_dereference_arg dyndao.Core.Update.update_lists
    dyndao.Value.same
saved_tree_is_clean_example =
    saved_tree_is_clean orm orm-TreeHooks 2 0 half_saved (save_all orm 2 0 half_saved).1 (pos 1)
      refl

orm-Counts : Counts orm.raw_conn (λ w. w.open_stmts)
orm-Counts = record {
  count_prepare = λ tx sql w. refl;
  count_close = λ stmt w. refl;
  count_exec = λ stmt args w. refl;
  count_query = λ stmt args w. refl;
  count_close_rows = λ w. refl;
}

orm-CountsTx : CountsTx orm.raw_conn (λ w. w.open_stmts)
orm-CountsTx = record {
  count_begin = λ w. refl;
  count_commit = λ tx w. omega arith;
  count_rollback = λ tx w. omega arith;
}

orm-HooksClose : HooksClose orm (λ w. w.open_stmts) orm-Counts
unfolding call_hook_if_needed lookup
orm-HooksClose = record {
  before_create = λ st. refl;
  after_create = λ st. refl;
  before_update = λ st. refl;
  after_update = λ st. refl;
}

save_all_closes_statements_example :
    ((recurse_and_save orm 2 (some 7) 0 family).1.world.open_stmts ≡ 0)
    × ((save_all orm 2 0 family).1.world.open_stmts ≤ 0)
save_all_closes_statements_example =
    save_all_closes_statements orm (λ w. w.open_stmts) orm-Counts orm-HooksClose orm-CountsTx 2 0
      (some 7) family

-- A saved parent with a saved child that holds its key
abbrev saved_family : List Object
saved_family = record saved_person { children = ("people", some 1 ∷ []) ∷ [] } ∷ saved_person ∷ []

saved_family-IsIdle : IsIdle orm saved_family 2 0
unfolding IsIdle is_dirty get_table lookup dyndao.Object.get dyndao.Value.same
saved_family-IsIdle = (
  record saved_person { children = ("people", some 1 ∷ []) ∷ [] },
  people,
  refl,
  refl,
  refl,
  (
    (
      (
        (saved_person, people, refl, refl, λ has. refl),
        (saved_person, people, refl, refl, refl, tt),
      ),
      tt,
    ),
    tt,
  ),
)

idle_tree_untouched_example :
    save_all orm 2 0 (record { objects = saved_family; world = world })
    ≡ (ok (pos 0), record { objects = saved_family; world = note "commit" (note "begin" world) })
idle_tree_untouched_example =
    idle_tree_untouched orm saved_family 2 0 7 world (note "begin" world)
      (note "commit" (note "begin" world)) refl refl refl refl saved_family-IsIdle

-- A person without children in a table of persons
abbrev kin_person : Object
kin_person = record saved_person { object_type = "kin" }

fleshen_fills_children_example :
    let ran = fleshen_children kin_orm 0 (record { objects = kin_person ∷ []; world = world }) in
    OnlyChildren kin_orm (kin_person ∷ []) 0 kin_person refl ran.1
    × All (λ n. Post (λ a. HasChildren kin_orm 0 n []) ran) ("kin" ∷ [])
unfolding get_table lookup
fleshen_fills_children_example =
    fleshen_fills_children kin_orm (kin_person ∷ []) 0 kin_person kin refl refl world
