-- ===== src/Dns/Answers.antt =====
-- The addresses that rust-client/dns.rs reads from a response.
use csqtt_android.Shared.{
  ℕ, zero, suc, ◌+◌, ◌≤◌, ◌≡◌, refl, subst, ◌&&◌, ◌||◌, not, List, [], ◌∷◌, ◌++◌, ltb, leb, ◌==◌,
  length, take, drop, length-take, length-drop, length-append, u16_at, arith, Bool-cases, inl, inr,
}
use csqtt_android.Dns.{
  Answer, ok, refused, out_of_fuel, and_then, past, read_u16, skip_name, skip_questions, IpAddr, v4,
  v6, contains, push_new, push_record, read_record, read_answers, flags_refused, parse_response,
}
use csqtt_android.Dns.Names.{Within, skip_name-Within}

-- A refusal, or a result of which `P` holds.
unfoldable pub Ends {ℓ} : {A : Type ℓ} → (A → Type 0) → Answer A → Type 0
Ends P (ok a) = P a
Ends P refused = 0 ≤ 0
Ends P out_of_fuel = 1 ≤ 0

Ends-and_then {ℓ κ} :
    {A : Type ℓ} {B : Type κ} (P : A → Type 0) (Q : B → Type 0) (r : Answer A) (f : A → Answer B)
    → Ends P r
    → ((a : A) → P a → Ends Q (f a))
    → Ends Q (and_then r f)
unfolding Ends and_then
Ends-and_then P Q (ok a) f e h = h a e
Ends-and_then P Q refused f e h = e
Ends-and_then P Q out_of_fuel f e h = e

abbrev Inside : List ℕ → ℕ → Type 0
Inside message n = n ≤ length message

Ends-skip_name :
    (message : List ℕ) (offset : ℕ)
    → Inside message offset
    → Ends (Inside message) (skip_name message offset)
unfolding Within Ends
Ends-skip_name message offset inside =
    within (skip_name message offset) (skip_name-Within message offset inside)
  where
    within : (r : Answer ℕ) → Within offset (length message) r → Ends (Inside message) r
    within (ok n) w = w.1
    within refused w = w
    within out_of_fuel w = w

Ends-past :
    (message : List ℕ) (offset n : ℕ)
    → Ends (λ next. (next ≡ offset + n) × Inside message next) (past message offset n)
unfolding Ends past
Ends-past message offset n = elim (Bool-cases (leb (offset + n) (length message))) [
  | inl fits ↦ rw (fits, past, Ends) (refl, ground (arith, fits))
  | inr not_fits ↦ rw (not_fits, past, Ends) (omega arith)
]

Ends-read_u16 : (message : List ℕ) (offset : ℕ) → Ends (λ n. 0 ≤ n) (read_u16 message offset)
unfolding Ends read_u16
Ends-read_u16 message offset = ground arith

Ends-skip_questions :
    (questions : ℕ) (message : List ℕ) (offset : ℕ)
    → Inside message offset
    → Ends (Inside message) (skip_questions questions message offset)
unfolding skip_questions Ends
Ends-skip_questions zero message offset inside = inside
Ends-skip_questions (suc questions) message offset inside =
    Ends-and_then (Inside message) (Inside message) _ _ (Ends-skip_name message offset inside)
      (λ name_end _.
        Ends-and_then (λ next. (next ≡ name_end + 4) × Inside message next) (Inside message) _ _
          (Ends-past message name_end 4)
          (λ next at. Ends-skip_questions questions message next at.1))

-- Four octets or sixteen.
unfoldable pub IsAddress : IpAddr → Type 0
IsAddress (v4 octets) = length octets ≡ 4
IsAddress (v6 octets) = length octets ≡ 16

unfoldable pub AllAddresses : List IpAddr → Type 0
AllAddresses [] = 0 ≤ 0
AllAddresses (a ∷ addresses) = IsAddress a × AllAddresses addresses

-- At most `n` addresses, each of its width.
abbrev pub Few : ℕ → List IpAddr → Type 0
Few n addresses = (length addresses ≤ n) × AllAddresses addresses

AllAddresses-append :
    (xs : List IpAddr) (a : IpAddr) → AllAddresses xs → IsAddress a → AllAddresses (xs ++ (a ∷ []))
unfolding AllAddresses
AllAddresses-append [] a h e = (e, omega arith)
AllAddresses-append (x ∷ xs) a h e = (h.0, AllAddresses-append xs a h.1 e)

Few-push_new :
    (n : ℕ) (xs : List IpAddr) (a : IpAddr) → Few n xs → IsAddress a → Few (suc n) (push_new xs a)
unfolding push_new
Few-push_new n xs a h e = elim (Bool-cases (contains xs a)) [
  | inl old ↦ rw (old, push_new) (omega (arith, h.0), h.1)
  | inr is_new ↦
      rw (is_new, push_new)
        (omega (arith, h.0, length-append xs (a ∷ [])), AllAddresses-append xs a h.1 e)
]

Few-push_record :
    (n : ℕ) (xs : List IpAddr) (record_type record_class data_length : ℕ) (octets : List ℕ)
    → Few n xs
    → length octets ≡ data_length
    → Few (suc n) (push_record xs record_type record_class data_length octets)
unfolding push_record IsAddress
Few-push_record n xs record_type record_class data_length octets h wide =
    elim (Bool-cases (record_class == 1 && (record_type == 1 && data_length == 4))) [
      | inl is_a ↦
          rw (is_a, push_record) (Few-push_new n xs (v4 octets) h (ground (arith, is_a, wide)))
      | inr not_a ↦
          elim (Bool-cases (record_class == 1 && (record_type == 28 && data_length == 16))) [
            | inl is_aaaa ↦
                rw (not_a, push_record)
                  (rw is_aaaa (Few-push_new n xs (v6 octets) h (ground (arith, is_aaaa, wide))))
            | inr neither ↦ rw (not_a, push_record) (rw neither (omega (arith, h.0), h.1))
          ]
    ]

length-octets :
    (message : List ℕ) (n offset next : ℕ)
    → next ≡ offset + n
    → next ≤ length message
    → length (take n (drop offset message)) ≡ n
length-octets message n offset next e inside =
    omega (arith, length-take n (drop offset message), length-drop offset message, e, inside)

Ends-read_record :
    (n : ℕ) (message : List ℕ) (offset : ℕ) (addresses : List IpAddr)
    → Inside message offset
    → Few n addresses
    → Ends (λ r. Inside message r.0 × Few (suc n) r.1) (read_record message offset addresses)
unfolding read_record Ends
Ends-read_record n message offset addresses inside few =
    Ends-and_then (Inside message) _ _ _ (Ends-skip_name message offset inside) λ name_end _.
      Ends-and_then (λ x. 0 ≤ x) _ _ _ (Ends-read_u16 message name_end)
        λ record_type _.
          Ends-and_then (λ x. 0 ≤ x) _ _ _ (Ends-read_u16 message (name_end + 2))
            λ record_class _.
              Ends-and_then (λ x. 0 ≤ x) _ _ _ (Ends-read_u16 message (name_end + 8))
                λ data_length _.
                  Ends-and_then (λ x. (x ≡ name_end + 10) × Inside message x) _ _ _
                    (Ends-past message name_end 10)
                    λ data_offset _.
                      Ends-and_then (λ x. (x ≡ data_offset + data_length) × Inside message x) _ _ _
                        (Ends-past message data_offset data_length)
                        λ next at. (
                          at.1,
                          Few-push_record n addresses record_type record_class data_length _ few
                              (length-octets message data_length data_offset next at.0 at.1),
                        )

Ends-read_answers :
    (answers n : ℕ) (message : List ℕ) (offset : ℕ) (addresses : List IpAddr)
    → Inside message offset
    → Few n addresses
    → Ends (Few (n + answers)) (read_answers answers message offset addresses)
unfolding read_answers Ends
Ends-read_answers zero n message offset addresses inside few = (omega (arith, few.0), few.1)
Ends-read_answers (suc answers) n message offset addresses inside few =
    Ends-and_then (λ r. Inside message r.0 × Few (suc n) r.1) _ _ _
      (Ends-read_record n message offset addresses inside few)
      (λ r at.
        subst (λ x. Ends (Few x) (read_answers answers message r.0 r.1)) (omega arith)
          (Ends-read_answers answers (suc n) message r.0 r.1 at.0 at.1))

Ends-first_answers :
    (answers : ℕ) (message : List ℕ) (offset : ℕ)
    → Inside message offset
    → Ends (Few answers) (read_answers answers message offset [])
unfolding AllAddresses
Ends-first_answers answers message offset inside =
    subst (λ x. Ends (Few x) (read_answers answers message offset [])) (omega arith)
      (Ends-read_answers answers 0 message offset [] inside (omega arith, omega arith))

-- Whatever bytes a response is: parsing it ends, with an error, or with no more addresses than its
-- header announces answers, each of four octets or of sixteen.
pub parse_response-Ends :
    (response : List ℕ) (query_id : ℕ)
    → Ends (Few (u16_at response 6)) (parse_response response query_id)
unfolding parse_response Ends
parse_response-Ends response query_id = elim (Bool-cases (ltb (length response) 12)) [
  | inl short ↦ rw (short, parse_response) (omega arith)
  | inr enough ↦
      elim (Bool-cases (not (u16_at response 0 == query_id) || flags_refused (u16_at response 2))) [
        | inl refuses ↦ rw (enough, parse_response) (rw refuses (omega arith))
        | inr accepts ↦
            rw (enough, parse_response)
              (rw accepts (
                Ends-and_then (Inside response) _ _ _
                  (Ends-skip_questions (u16_at response 4) response 12 (ground (arith, enough)))
                  (Ends-first_answers (u16_at response 6) response)))
      ]
]
