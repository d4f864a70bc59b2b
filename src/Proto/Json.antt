-- ===== src/Proto/Json.antt =====
-- `serde_json::Value`, as the store handles it. A number is an unsigned, a negative or a floating
-- one, as in `serde_json::Number`; a float stands as its text, and `neg n` is -(n + 1).
-- An object is a `serde_json::Map`: its entries in the map's order, one for a key.
use maxops.Prelude.{ℕ, String, Bool, true, false}

mutual
  pub data Value : Type 0 where
    null : Value
    bool : Bool → Value
    unsigned : ℕ → Value
    neg : ℕ → Value
    float : String → Value
    string : String → Value
    array : Values → Value
    object : Members → Value

  pub data Values : Type 0 where
    nil : Values
    cons : Value → Values → Values

  pub data Members : Type 0 where
    end : Members
    member : String → Value → Members → Members

abbrev pub is_object : Value → Bool
is_object (object m) = true
is_object _ = false
