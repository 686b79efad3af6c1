-- ===== src/Provenance/Json.antt =====
-- `stable_model_id` of models.py: the digest of `json.dumps` with sorted keys and no spaces.
pub mod Digest
use nodelm.Base.{
  ℕ, ◌+◌, ◌/◌, ◌%◌, Bool, true, false, List, [], ◌∷◌, ◌++◌, Text, text, ltb, eqb, ltb_text,
  if◌then◌else◌,
}
use nodelm.Base.Digests.{hexdigest, decimal}
use nodelm.Provenance.Values.{
  Value, Items, Fields, null, floating, boolean, integer, negative, string, array, object, nil,
  cons, end, field,
}

-- One character in a JSON string, not restricted to ASCII.
unfoldable pub escape_char : ℕ → Text
unfolding hexdigest
escape_char c =
    if eqb c 34
    then 92 ∷ 34 ∷ []
    else if eqb c 92
    then 92 ∷ 92 ∷ []
    else if eqb c 10
    then 92 ∷ b'n' ∷ []
    else if eqb c 13
    then 92 ∷ b'r' ∷ []
    else if eqb c 9
    then 92 ∷ b't' ∷ []
    else if eqb c 12
    then 92 ∷ b'f' ∷ []
    else if eqb c 8
    then 92 ∷ b'b' ∷ []
    else if ltb c 32
    then 92 ∷ b'u' ∷ 48 ∷ 48 ∷ hexdigest (c ∷ [])
    else c ∷ []

unfoldable pub escape : Text → Text
unfolding escape_char
escape [] = []
escape (c ∷ s) = escape_char c ++ escape s

unfoldable pub quoted : Text → Text
unfolding escape
quoted s = 34 ∷ (escape s ++ 34 ∷ [])

-- A field in its place among sorted fields.
unfoldable pub place_field : Text → Value → Fields → Fields
unfolding ltb_text
place_field key value end = field key value end
place_field key value (field k v fields) =
    let later = field k v (place_field key value fields) in
    if ltb_text key k then field key value (field k v fields) else later

unfoldable mutual
  pub sort_keys : Value → Value
  sort_keys null = null
  sort_keys (floating t) = floating t
  sort_keys (boolean b) = boolean b
  sort_keys (integer n) = integer n
  sort_keys (negative n) = negative n
  sort_keys (string s) = string s
  sort_keys (array items) = array (sort_items items)
  sort_keys (object fields) = object (sort_fields fields)

  pub sort_items : Items → Items
  sort_items nil = nil
  sort_items (cons value items) = cons (sort_keys value) (sort_items items)

  pub sort_fields : Fields → Fields
  sort_fields end = end
  sort_fields (field key value fields) = place_field key (sort_keys value) (sort_fields fields)

-- What follows an item: a comma, where there are more.
unfoldable mutual
  pub dumps : Value → Text
  dumps null = text "null"
  dumps (floating t) = t
  dumps (boolean true) = text "true"
  dumps (boolean false) = text "false"
  dumps (integer n) = decimal n
  dumps (negative n) = 45 ∷ decimal (n + 1)
  dumps (string s) = quoted s
  dumps (array items) = 91 ∷ (dumps_items items ++ 93 ∷ [])
  dumps (object fields) = 123 ∷ (dumps_fields fields ++ 125 ∷ [])

  pub dumps_items : Items → Text
  dumps_items nil = []
  dumps_items (cons value nil) = dumps value
  dumps_items (cons value (cons next items)) = dumps value ++ (44 ∷ dumps_items (cons next items))

  pub dumps_fields : Fields → Text
  dumps_fields end = []
  dumps_fields (field key value end) = quoted key ++ (58 ∷ dumps value)
  dumps_fields (field key value (field k v fields)) =
      quoted key ++ (58 ∷ (dumps value ++ (44 ∷ dumps_fields (field k v fields))))

unfoldable pub stable_model_id : (Text → List ℕ) → Value → Text
unfolding dumps sort_keys hexdigest
stable_model_id sha256 value = hexdigest (sha256 (dumps (sort_keys value)))
