-- ===== src/Split/Events/Skipped.antt =====
-- `_skip_yaml_value` on the events of a value.
use nodelm.Base.{ℕ, suc, ◌≡◌, refl, ◌∙◌, List, ◌∷◌, Text, ok}
use nodelm.Split.Events.{
  Event, mapping_start, sequence_start, scalar, alias_event, mapping_end, sequence_end, skip_depth,
  skip_yaml_value,
}

-- A YAML value. The keys and the values of a mapping take turns.
mutual
  pub data Value : Type 0 where
    text_value : Text → Value
    alias_value : Value
    sequence : Values → Value
    mapping : Values → Value

  pub data Values : Type 0 where
    no_values : Values
    and_value : Value → Values → Values

-- The first event of a value, and the others, followed by `rest`.
unfoldable pub first_event : Value → Event
first_event (text_value t) = scalar t
first_event alias_value = alias_event
first_event (sequence vs) = sequence_start
first_event (mapping vs) = mapping_start

unfoldable mutual
  pub other_events : Value → List Event → List Event
  other_events (text_value t) rest = rest
  other_events alias_value rest = rest
  other_events (sequence vs) rest = all_events vs (sequence_end ∷ rest)
  other_events (mapping vs) rest = all_events vs (mapping_end ∷ rest)

  pub all_events : Values → List Event → List Event
  all_events no_values rest = rest
  all_events (and_value v vs) rest = first_event v ∷ other_events v (all_events vs rest)

mutual
  unfolding skip_depth first_event other_events all_events

  skip_value :
      (depth : ℕ) (v : Value) (rest : List Event)
      → skip_depth (suc depth) (first_event v ∷ other_events v rest) ≡ skip_depth (suc depth) rest
  skip_value depth (text_value t) rest = refl
  skip_value depth alias_value rest = refl
  skip_value depth (sequence vs) rest = skip_values (suc depth) vs (sequence_end ∷ rest)
  skip_value depth (mapping vs) rest = skip_values (suc depth) vs (mapping_end ∷ rest)

  skip_values :
      (depth : ℕ) (vs : Values) (rest : List Event)
      → skip_depth (suc depth) (all_events vs rest) ≡ skip_depth (suc depth) rest
  skip_values depth no_values rest = refl
  skip_values depth (and_value v vs) rest =
      skip_value depth v (all_events vs rest) ∙ skip_values depth vs rest

-- After the first event of a value, skipping it leaves the events that follow the value.
pub skip_yaml_value-other_events :
    (v : Value) (rest : List Event)
    → skip_yaml_value (first_event v) (other_events v rest) ≡ ok rest
unfolding skip_yaml_value skip_depth first_event other_events
skip_yaml_value-other_events (text_value t) rest = refl
skip_yaml_value-other_events alias_value rest = refl
skip_yaml_value-other_events (sequence vs) rest = skip_values 0 vs (sequence_end ∷ rest)
skip_yaml_value-other_events (mapping vs) rest = skip_values 0 vs (mapping_end ∷ rest)
