-- ===== src/Schema/Json.antt =====
-- schema/schema.go: a schema as JSON. encoding/json and the conversions between texts and byte slices
-- are parameters.
use dyndao.Base.{String, ◌≡◌, arith}
use dyndao.Base.Outcome.{Outcome, ok, ◌>>=◌}
use dyndao.Schema.{Schema, default_schema}

-- encoding/json on schemas; `unmarshal` fills in the schema that it is given.
pub record Json (Bytes : Type 0) : Type 0 where
  pub marshal : Schema → Outcome Bytes
  pub unmarshal : Bytes → Schema → Outcome Schema
  pub text : Bytes → String
  pub bytes : String → Bytes

module _ {Bytes : Type 0} (json : Json Bytes) where
  unfoldable pub to_json_bytes : Schema → Outcome Bytes
  to_json_bytes s = json.marshal s

  unfoldable pub to_json : Schema → Outcome String
  unfolding to_json_bytes
  to_json s = do buf ← to_json_bytes s; ok (json.text buf)

  unfoldable pub from_json : String → Outcome Schema
  from_json json_str = json.unmarshal (json.bytes json_str) default_schema

  unfoldable pub from_json_bytes : Bytes → Outcome Schema
  from_json_bytes json_bytes = json.unmarshal json_bytes default_schema

  -- With an encoding/json that reads back what it wrote, over a fresh schema, and texts that keep their
  -- bytes, a schema that ToJSON wrote is read back by FromJSON, and one that ToJSONBytes wrote by
  -- FromJSONBytes.
  pub from_json-to_json :
      (s : Schema) (t : String) (b : Bytes)
      → ((c : Bytes) → json.bytes (json.text c) ≡ c)
      → ((r : Schema) (c : Bytes) → json.marshal r ≡ ok c → json.unmarshal c default_schema ≡ ok r)
      → to_json s ≡ ok t
      → to_json_bytes s ≡ ok b
      → (from_json t ≡ ok s) × (from_json_bytes b ≡ ok s)
  unfolding to_json from_json from_json_bytes
  from_json-to_json s t b kept reads wrote wrote_bytes = grind (arith, kept, reads)
