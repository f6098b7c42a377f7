-- ===== src/Data/Walk.antt =====
-- SerializeDataTree (Holder/DTUtils.cpp) over the data of Holder/IDataTree.h. A serializer is client
-- code: `decide` answers for its callbacks, from all the calls of it until then, the latest first. An
-- element and an object are named by a number.
pub mod Order
pub mod Steps
pub mod Fuel
use holder.Prelude.{
  ℕ, zero, suc, Bool, true, false, not, List, [], ◌∷◌, Option, none, some, Name, get_elem?, nat_beq,
  if◌then◌else◌,
}

mutual
  pub data Datum : Type 0 where
    element : ℕ → Datum
    object : ℕ → Datum
    list : Items → Datum
    dict : Entries → Datum

  pub data Items : Type 0 where
    nil : Items
    cons : Datum → Items → Items

  pub data Entries : Type 0 where
    end : Entries
    entry : Name → Datum → Entries → Entries

pub data IterInstruction : Type 0 where
  enter skip break : IterInstruction

-- A call of the serializer; a compound comes with whether it has elements.
pub data SerializerCall : Type 0 where
  on_element : ℕ → SerializerCall
  on_object : ℕ → SerializerCall
  on_list : Items → Bool → SerializerCall
  on_dict : Entries → Bool → SerializerCall
  on_dict_key : Name → SerializerCall
  end_compound : SerializerCall

pub record DfsLevel : Type 0 where
  pub level : Datum
  pub children : List (Name × Datum)
  pub cur_idx : ℕ
  pub children_loaded : Bool

unfoldable pub new_level : Datum → DfsLevel
new_level d = record { level = d; children = []; cur_idx = 0; children_loaded = false }

-- The key is empty for lists.
unfoldable pub item_children : Items → List (Name × Datum)
item_children nil = []
item_children (cons d ds) = ([], d) ∷ item_children ds

unfoldable pub entry_children : Entries → List (Name × Datum)
entry_children end = []
entry_children (entry k d ds) = (k, d) ∷ entry_children ds

unfoldable pub children_of : Datum → List (Name × Datum)
unfolding item_children entry_children
children_of (element x) = []
children_of (object x) = []
children_of (list ds) = item_children ds
children_of (dict ds) = entry_children ds

unfoldable pub load_children : DfsLevel → DfsLevel
unfolding children_of
load_children l =
    if l.children_loaded
    then l
    else record l { children = children_of l.level; children_loaded = true }

abbrev pub is_dict : Datum → Bool
is_dict (element x) = false
is_dict (object x) = false
is_dict (list ds) = false
is_dict (dict ds) = true

abbrev pub no_children : List (Name × Datum) → Bool
no_children [] = true
no_children (_ ∷ _) = false

-- `!isEmpty` of a list and of a dictionary.
abbrev pub has_items : Items → Bool
has_items nil = false
has_items (cons d ds) = true

abbrev pub has_entries : Entries → Bool
has_entries end = false
has_entries (entry k d ds) = true

-- What a round of the loop leads to: the answer false, or the stack, its back first.
pub data WalkRound : Type 0 where
  stops : List SerializerCall → WalkRound
  goes_on : List DfsLevel → List SerializerCall → WalkRound

module _ (decide : List SerializerCall → IterInstruction) where
  -- The callback for a level at its first child, and the children if it is entered.
  unfoldable pub start_compound :
      SerializerCall
      → DfsLevel
      → List SerializerCall
      → IterInstruction × DfsLevel × List SerializerCall
  unfolding load_children
  start_compound call l calls = elim (decide (call ∷ calls)) [
    | enter ↦ (enter, load_children l, call ∷ calls)
    | skip ↦ (skip, l, call ∷ calls)
    | break ↦ (break, l, call ∷ calls)
  ]

  unfoldable pub start_level :
      Datum → DfsLevel → List SerializerCall → IterInstruction × DfsLevel × List SerializerCall
  start_level (element x) l calls = (decide (on_element x ∷ calls), l, on_element x ∷ calls)
  start_level (object x) l calls = (decide (on_object x ∷ calls), l, on_object x ∷ calls)
  start_level (list ds) l calls = start_compound (on_list ds (has_items ds)) l calls
  start_level (dict ds) l calls = start_compound (on_dict ds (has_entries ds)) l calls

  unfoldable pub visit_level :
      DfsLevel → List SerializerCall → IterInstruction × DfsLevel × List SerializerCall
  visit_level l calls =
      if nat_beq l.cur_idx 0 then start_level l.level l calls else (enter, l, calls)

  -- The next child, under its key in a dictionary, or the end of the level.
  unfoldable pub take_child : DfsLevel → List DfsLevel → List SerializerCall → WalkRound
  unfolding new_level
  take_child l stack calls = elim (get_elem? l.children l.cur_idx) [
    | none ↦ goes_on stack (if no_children l.children then calls else end_compound ∷ calls)
    | some (key, value) ↦
        let l' = record l { cur_idx = suc l.cur_idx } in
        let keyed : WalkRound = elim (decide (on_dict_key key ∷ calls)) [
          | enter ↦ goes_on (new_level value ∷ l' ∷ stack) (on_dict_key key ∷ calls)
          | skip ↦ goes_on (l' ∷ stack) (on_dict_key key ∷ calls)
          | break ↦ stops (on_dict_key key ∷ calls)
        ] in
        if is_dict l.level then keyed else goes_on (new_level value ∷ l' ∷ stack) calls
  ]

  unfoldable pub walk_round : DfsLevel → List DfsLevel → List SerializerCall → WalkRound
  walk_round l stack calls =
      let (instruction, l', calls') = visit_level l calls in
      elim instruction [
        | enter ↦ take_child l' stack calls'
        | skip ↦ take_child l' stack calls'
        | break ↦ stops calls'
      ]

  -- The loop; `none` when the fuel is used up.
  unfoldable pub walk :
      ℕ → List DfsLevel → List SerializerCall → Option (Bool × List SerializerCall)
  walk fuel [] calls = some (true, calls)
  walk zero (l ∷ stack) calls = none
  walk (suc fuel) (l ∷ stack) calls = elim (walk_round l stack calls) [
    | stops calls' ↦ some (false, calls')
    | goes_on stack' calls' ↦ walk fuel stack' calls'
  ]

  unfoldable pub serialize_data_tree : ℕ → Datum → Option (Bool × List SerializerCall)
  unfolding new_level
  serialize_data_tree fuel d = walk fuel (new_level d ∷ []) []
