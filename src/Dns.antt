-- ===== src/Dns.antt =====
-- The DNS messages of rust-client/dns.rs: the query for a host and the addresses of a response. A host
-- is the bytes of its text.
pub mod Names
pub mod Written
pub mod Answers
mod Tests
use csqtt_android.Shared.{
  ℕ, zero, suc, ◌+◌, ◌/◌, ◌%◌, Bool, true, false, ◌&&◌, ◌||◌, not, Option, none, some, List, [],
  ◌∷◌, ◌++◌, ltb, leb, ◌==◌, if◌then◌else◌, length, get_elem?, take, drop, to_be, u16_at,
  same_bytes, Name, map_option,
}

-- A result, or an error; the loop over a name runs on fuel.
pub data Answer {ℓ} (A : Type ℓ) : Type ℓ where
  ok : A → Answer A
  refused : Answer A
  out_of_fuel : Answer A

unfoldable pub and_then {ℓ κ} : {A : Type ℓ} {B : Type κ} → Answer A → (A → Answer B) → Answer B
and_then (ok a) f = f a
and_then refused f = refused
and_then out_of_fuel f = out_of_fuel

-- `trim_end_matches('.')`
unfoldable pub trim_dots : Name → Name
trim_dots [] = []
trim_dots (b ∷ bytes) = elim (trim_dots bytes) [
  | [] ↦ if b == 46 then [] else b ∷ []
  | c ∷ rest ↦ b ∷ c ∷ rest
]

unfoldable pub onto_first : ℕ → List Name → List Name
onto_first b [] = (b ∷ []) ∷ []
onto_first b (label ∷ labels) = (b ∷ label) ∷ labels

-- `split('.')`
unfoldable pub split_dots : Name → List Name
split_dots [] = [] ∷ []
split_dots (b ∷ bytes) =
    let labels = split_dots bytes in if b == 46 then [] ∷ labels else onto_first b labels

unfoldable pub is_ascii : Name → Bool
is_ascii [] = true
is_ascii (b ∷ bytes) = ltb b 128 && is_ascii bytes

unfoldable pub is_label : Name → Bool
is_label label = not (length label == 0) && (leb (length label) 63 && is_ascii label)

unfoldable pub write_labels : List Name → Option (List ℕ)
write_labels [] = some []
write_labels (label ∷ labels) =
    let rest = write_labels labels in
    if is_label label then map_option (λ r. length label ∷ (label ++ r)) rest else none

abbrev pub query_header : ℕ → List ℕ
query_header query_id =
    to_be 2 query_id ++ (to_be 2 256 ++ (to_be 2 1 ++ (to_be 2 0 ++ (to_be 2 0 ++ to_be 2 0))))

unfoldable pub build_query : Name → ℕ → ℕ → Option (List ℕ)
build_query text query_id record_type =
    let host = trim_dots text in
    if length host == 0 || ltb 253 (length host)
    then none
    else map_option
        (λ labels. query_header query_id ++ (labels ++ (0 ∷ (to_be 2 record_type ++ to_be 2 1))))
        (write_labels (split_dots host))

unfoldable pub read_u16 : List ℕ → ℕ → Answer ℕ
read_u16 message offset =
    if leb (offset + 2) (length message) then ok (u16_at message offset) else refused

-- `checked_add`, where the sum is filtered by the length of the message
unfoldable pub past : List ℕ → ℕ → ℕ → Answer ℕ
past message offset n = if leb (offset + n) (length message) then ok (offset + n) else refused

-- One turn of the loop: the offset after the name, or that of the next label. `len & 0xc0` is the
-- upper two bits of a byte.
unfoldable pub skip_label : List ℕ → ℕ → ℕ → Answer (ℕ × Bool)
skip_label message offset len =
    if leb 192 len
    then and_then (past message offset 2) (λ next. ok (next, true))
    else if leb 64 len
    then refused
    else if len == 0
    then ok (offset + 1, true)
    else and_then (past message (offset + 1) len) (λ next. ok (next, false))

unfoldable pub skip_from : ℕ → List ℕ → ℕ → Answer ℕ
skip_from zero message offset = out_of_fuel
skip_from (suc fuel) message offset = elim (get_elem? message offset) [
  | none ↦ refused
  | some len ↦
      and_then (skip_label message offset len)
        (λ next. if next.1 then ok next.0 else skip_from fuel message next.0)
]

unfoldable pub skip_name : List ℕ → ℕ → Answer ℕ
skip_name message offset = skip_from (suc (length message)) message offset

unfoldable pub skip_questions : ℕ → List ℕ → ℕ → Answer ℕ
skip_questions zero message offset = ok offset
skip_questions (suc questions) message offset =
    and_then (skip_name message offset) (λ name_end.
      and_then (past message name_end 4) (λ next. skip_questions questions message next))

pub data IpAddr : Type 0 where
  v4 : List ℕ → IpAddr
  v6 : List ℕ → IpAddr

unfoldable pub same_address : IpAddr → IpAddr → Bool
same_address (v4 a) (v4 b) = same_bytes a b
same_address (v4 a) (v6 b) = false
same_address (v6 a) (v4 b) = false
same_address (v6 a) (v6 b) = same_bytes a b

unfoldable pub contains : List IpAddr → IpAddr → Bool
contains [] address = false
contains (a ∷ addresses) address = same_address a address || contains addresses address

unfoldable pub push_new : List IpAddr → IpAddr → List IpAddr
push_new addresses address =
    if contains addresses address then addresses else addresses ++ (address ∷ [])

unfoldable pub push_record : List IpAddr → ℕ → ℕ → ℕ → List ℕ → List IpAddr
push_record addresses record_type record_class data_length octets =
    if record_class == 1 && (record_type == 1 && data_length == 4)
    then push_new addresses (v4 octets)
    else if record_class == 1 && (record_type == 28 && data_length == 16)
    then push_new addresses (v6 octets)
    else addresses

-- A resource record: the offset after it, with the addresses.
unfoldable pub read_record : List ℕ → ℕ → List IpAddr → Answer (ℕ × List IpAddr)
read_record message offset addresses = and_then (skip_name message offset) λ name_end.
    and_then (read_u16 message name_end) λ record_type.
      and_then (read_u16 message (name_end + 2)) λ record_class.
        and_then (read_u16 message (name_end + 8)) λ data_length.
          and_then (past message name_end 10) λ data_offset.
            and_then (past message data_offset data_length) λ next. ok (
              next,
              push_record addresses record_type record_class data_length
                  (take data_length (drop data_offset message)),
            )

unfoldable pub read_answers : ℕ → List ℕ → ℕ → List IpAddr → Answer (List IpAddr)
read_answers zero message offset addresses = ok addresses
read_answers (suc answers) message offset addresses =
    and_then (read_record message offset addresses)
      (λ next. read_answers answers message next.0 next.1)

-- `flags & 0x8000`, `flags & 0x0200` and `flags & 0x000f`
unfoldable pub flags_refused : ℕ → Bool
flags_refused flags =
    flags / 32_768 % 2 == 0 || (not (flags / 512 % 2 == 0) || not (flags % 16 == 0))

unfoldable pub parse_response : List ℕ → ℕ → Answer (List IpAddr)
parse_response response query_id =
    if ltb (length response) 12
    then refused
    else if not (u16_at response 0 == query_id) || flags_refused (u16_at response 2)
    then refused
    else and_then (skip_questions (u16_at response 4) response 12)
        (λ offset. read_answers (u16_at response 6) response offset [])
