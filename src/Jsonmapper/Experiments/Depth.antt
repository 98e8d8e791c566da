-- ===== src/Jsonmapper/Experiments/Depth.antt =====
-- The fuel of the two recursions of jsonmapper/experiments/mapper.go.
use dyndao.Base.{
  ℕ, zero, suc, ◌+◌, String, Bool, false, none, some, List, [], ◌∷◌, ◌≡◌, refl, get_elem?, length,
  ◌==◌, if◌then◌else◌, All, map, arith, Option-cases, inl, inr,
}
use dyndao.Base.Map.{Map, lookup, entries}
use dyndao.Base.Outcome.{Outcome, ok, err, panic, ◌>>=◌}
use dyndao.Value.{Std}
use dyndao.Schema.{Column, ChildTable, Table, Schema}
use dyndao.Object.{Object, Array, new}
use dyndao.Orm.{Act, proceed}
use dyndao.Orm.Tree.Depth.{Each, EachChild, WithinDepth, EachChild-weaken}
use dyndao.Orm.Tree.Shape.{get_elem?-shape}
use dyndao.Jsonmapper.Experiments.{get_path_prefix}
use dyndao.Jsonmapper.Experiments.Paths.{
  Packages, set_array, set_children, to_json_from_object, set_values, root_path_of,
}
use dyndao.Jsonmapper.Experiments.Read.{list_sources, set_found, walk_children, to_object_from_json}

-- Below a table there are at most so many levels of child tables, its own one included.
unfoldable pub WithinLevels : Schema → ℕ → String → Type 0
WithinLevels sch zero tbl = ⊥
WithinLevels sch (suc levels) tbl = elim (lookup tbl sch.tables) [
  | none ↦ Unit
  | some table ↦ All (λ (k, v). WithinLevels sch levels k) table.children
]

walk_children-agree :
    (print : ChildTable → String) (read read' : String → Act (List Object) Object) (n i : ℕ)
    (tables : Map ChildTable) (obj : Object) (heap : List Object)
    → All (λ (k, v). (h : List Object) → read' k h ≡ read k h) tables
    → walk_children print read' n i tables obj heap ≡ walk_children print read n i tables obj heap
unfolding walk_children
walk_children-agree print read read' n i [] obj heap agree = refl
walk_children-agree print read read' n i ((k, v) ∷ tables) obj heap agree =
    let rest : (obj' : Object) (heap' : List Object)
        → walk_children print read' n (suc i) tables obj' heap'
          ≡ walk_children print read n (suc i) tables obj' heap' =
      λ obj' heap'. walk_children-agree print read read' n (suc i) tables obj' heap' agree.1 in
    grind (arith, agree.0 heap, rest)

All-weaken :
    {A : Type 0} (P Q : A → Type 0) → ((a : A) → P a → Q a) → (xs : List A) → All P xs → All Q xs
All-weaken P Q weaker [] each = tt
All-weaken P Q weaker (x ∷ xs) each = (weaker x each.0, All-weaken P Q weaker xs each.1)

then-agree :
    {A B : Type 0} (r : Outcome A) (k k' : A → Outcome B)
    → ((a : A) → k a ≡ k' a)
    → (r >>= k) ≡ (r >>= k')
then-agree (ok a) k k' same = same a
then-agree (err e) k k' same = refl
then-agree (panic p) k k' same = refl

proceed-agree :
    {S A B : Type 0} (r : Outcome A) (k k' : A → Act S B) (h : S)
    → ((a : A) → k a h ≡ k' a h)
    → proceed r k h ≡ proceed r k' h
proceed-agree (ok a) k k' h same = same a
proceed-agree (err e) k k' h same = refl
proceed-agree (panic p) k k' h same = refl

module _ (s : Std) (go : Packages) (source : Column → String) (sch : Schema) where
  abbrev reads : ℕ → String → String → String → Act (List Object) Object
  reads = to_object_from_json s go source sch

  read_found :
      (f g : ℕ) (consumed_path tbl json : String) (heap : List Object) (table : Table)
      → lookup tbl sch.tables ≡ some table
      → All
          (λ (k, v). (h : List Object) → reads g tbl k json h ≡ reads f tbl k json h)
          table.children
      → reads (suc g) consumed_path tbl json heap ≡ reads (suc f) consumed_path tbl json heap
  unfolding to_object_from_json
  read_found f g consumed_path tbl json heap table found agree =
      let walk : (obj : Object) (h : List Object)
          → walk_children go.print_child_table (λ k. reads g tbl k json) (length table.children) 0
              table.children obj h
            ≡ walk_children go.print_child_table (λ k. reads f tbl k json) (length table.children) 0
                table.children obj h =
        λ obj h.
          walk_children-agree go.print_child_table (λ k. reads f tbl k json)
            (λ k. reads g tbl k json) (length table.children) 0 table.children obj h agree in
      rw (to_object_from_json, found)
        (proceed-agree
          (list_sources source (get_path_prefix consumed_path tbl) (entries table.columns)) _ _ heap
          λ sources.
            proceed-agree
              (set_found s (map (λ e. e.0) sources) (go.get_many json (map (λ e. e.1) sources))
                (new tbl))
              _ _ heap λ obj. walk obj heap)

  -- For a table with at most `levels` levels of child tables, that much fuel is enough to read an object:
  -- more fuel gives the same result and the same heap, whatever fails on the way.
  pub levels_are_enough :
      (extra levels : ℕ) (consumed_path tbl json : String) (heap : List Object)
      → WithinLevels sch levels tbl
      → reads (extra + levels) consumed_path tbl json heap
        ≡ reads levels consumed_path tbl json heap
  unfolding WithinLevels to_object_from_json
  levels_are_enough extra zero consumed_path tbl json heap within = absurd within
  levels_are_enough extra (suc levels) consumed_path tbl json heap within =
      let one_more : suc (extra + levels) ≡ extra + suc levels = omega arith in
      rw (← one_more) (elim (Option-cases (lookup tbl sch.tables)) [
        | inl missing ↦ rw (to_object_from_json, missing) refl
        | inr (table, found) ↦
            read_found levels (extra + levels) consumed_path tbl json heap table found (
              All-weaken (λ (k, v). WithinLevels sch levels k)
                (λ (k, v).
                  (h : List Object)
                  → reads (extra + levels) tbl k json h ≡ reads levels tbl k json h)
                (λ (k, v) below h. levels_are_enough extra levels tbl k json h below) table.children
                (rw (found, WithinLevels) at within))
      ])

module _ (go : Packages) (source : Column → String) (heap : List Object) where
  -- The two ways of writing an object agree on the object at an address.
  abbrev Agrees : (Object → Outcome String) → (Object → Outcome String) → ℕ → Type 0
  Agrees write write' at =
      (child : Object) → get_elem? heap at ≡ some child → write' child ≡ write child

  set_array-agree :
      (write write' : Object → Outcome String) (root_path k : String) (v at : Array) (json : String)
      → Each (Agrees write write') at
      → set_array go source write' heap root_path k v at json
        ≡ set_array go source write heap root_path k v at json
  unfolding set_array
  set_array-agree write write' root_path k v [] json each = refl
  set_array-agree write write' root_path k v (none ∷ at) json each = refl
  set_array-agree write write' root_path k v (some i ∷ at) json each =
      let rest : (json' : String)
          → set_array go source write' heap root_path k v at json'
            ≡ set_array go source write heap root_path k v at json' =
        λ json'. set_array-agree write write' root_path k v at json' each.1 in
      grind (arith, each.0, rest)

  set_children-agree :
      (write write' : Object → Outcome String) (root_path : String) (children : Map Array)
      (json : String)
      → EachChild (Agrees write write') children
      → set_children go source write' heap root_path children json
        ≡ set_children go source write heap root_path children json
  unfolding set_children
  set_children-agree write write' root_path [] json each = refl
  set_children-agree write write' root_path ((k, at) ∷ children) json each =
      let rest : (json' : String)
          → set_children go source write' heap root_path children json'
            ≡ set_children go source write heap root_path children json' =
        λ json'. set_children-agree write write' root_path children json' each.1 in
      grind (arith, set_array-agree write write' root_path k at at json each.0, rest)

  abbrev shape : List (Map Array)
  shape = map (λ child. child.children) heap

  module _ (sch : Schema) (extra : ℕ) where
    abbrev writes : ℕ → Object → Outcome String
    writes f child = to_json_from_object go source sch f heap child "" "" false

    write-Agrees :
        (f g : ℕ) (obj : Object) (json root_path : String) (set_root : Bool)
        → EachChild (Agrees (writes f) (writes g)) obj.children
        → to_json_from_object go source sch (suc g) heap obj json root_path set_root
          ≡ to_json_from_object go source sch (suc f) heap obj json root_path set_root
    unfolding to_json_from_object
    write-Agrees f g obj json root_path set_root agree =
        elim (Option-cases (lookup obj.object_type sch.tables)) [
          | inl missing ↦ rw (to_json_from_object, missing) refl
          | inr (table, found) ↦
              let path = root_path_of obj.object_type root_path set_root in
              rw (to_json_from_object, found)
                (then-agree
                  (set_values go source (entries table.columns) path obj.kv
                    (if json == "" then "{}" else json))
                  _ _ λ text. set_children-agree (writes f) (writes g) path obj.children text agree)
        ]

    -- For an object with at most `depth` levels of children below it, one unit of fuel more than that
    -- is enough to write it: more fuel gives the same result.
    pub children_are_enough :
        (depth : ℕ) (obj : Object) (json root_path : String) (set_root : Bool)
        → EachChild (WithinDepth depth shape) obj.children
        → to_json_from_object go source sch (suc (extra + depth)) heap obj json root_path set_root
          ≡ to_json_from_object go source sch (suc depth) heap obj json root_path set_root
    unfolding WithinDepth
    children_are_enough zero obj json root_path set_root within =
        write-Agrees zero (extra + zero) obj json root_path set_root (
          EachChild-weaken (WithinDepth zero shape) (Agrees (writes zero) (writes (extra + zero)))
            (λ at none. absurd none) obj.children within)
    children_are_enough (suc depth) obj json root_path set_root within =
        write-Agrees (suc depth) (extra + suc depth) obj json root_path set_root (
          EachChild-weaken (WithinDepth (suc depth) shape)
            (Agrees (writes (suc depth)) (writes (extra + suc depth)))
            (λ at below child here.
              let one_more : suc (extra + depth) ≡ extra + suc depth = omega arith in
              let deeper : EachChild (WithinDepth depth shape) child.children =
                rw (get_elem?-shape heap at child here) at below in
              rw (← one_more) (children_are_enough depth child "" "" false deeper))
            obj.children within)
