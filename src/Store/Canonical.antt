-- ===== src/Store/Canonical.antt =====
-- `canonical_json` and `job_spec_hash` of crates/maxops-store/src/lib.rs.
use Prim.Native.String.{compare}
use Prim.Native.Nat.{Ordering}
use maxops.Prelude.{String, Bool, true, false, if◌then◌else◌}
use maxops.Proto.Json.{
  Value, Values, Members, null, bool, unsigned, neg, float, string, array, object, nil, cons, end,
  member,
}
use maxops.Proto.Jobs.{NewJob}

-- The order of keys is that of their bytes, which is the order of their code points.
unfoldable pub key_leb : String → String → Bool
key_leb a b = elim (compare a b) [ Ordering.gt ↦ false | _ ↦ true ]

-- `sort_by_key` keeps entries with the same key in order, as insertion in front of the first entry
-- that is not smaller does.
unfoldable pub insert_member : String → Value → Members → Members
insert_member k v end = member k v end
insert_member k v (member j w rest) =
    if key_leb k j then member k v (member j w rest) else member j w (insert_member k v rest)

unfoldable mutual
  pub canonical_json : Value → Value
  canonical_json (object m) = object (canonical_members m)
  canonical_json (array vs) = array (canonical_values vs)
  canonical_json null = null
  canonical_json (bool b) = bool b
  canonical_json (unsigned n) = unsigned n
  canonical_json (neg n) = neg n
  canonical_json (float t) = float t
  canonical_json (string s) = string s

  pub canonical_values : Values → Values
  canonical_values nil = nil
  canonical_values (cons v vs) = cons (canonical_json v) (canonical_values vs)

  pub canonical_members : Members → Members
  canonical_members end = end
  canonical_members (member k v rest) = insert_member k (canonical_json v) (canonical_members rest)

-- `fingerprint` is the hexadecimal BLAKE3 hash of a value's bytes, which other packages compute.
unfoldable pub job_spec_hash : (Value → String) → NewJob → String
job_spec_hash fingerprint new = fingerprint (
    canonical_json (
      object (
        member "host" (string new.host) (
          member "operation" (string new.operation)
            (member "spec_version" (unsigned new.spec_version) (member "spec" new.spec end))))))
