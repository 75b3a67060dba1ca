-- ===== src/Network/KeyShares/RoundTrip.antt =====
-- A share that is marshalled is read back.
use decentralized_poker_engi.Common.{
  ℕ, zero, suc, ◌%◌, ◌≤◌, ◌<◌, ◌≡◌, ◌≢◌, refl, sym, ap, subst, ◌∙◌, arith, All, Bool, Bool-cases,
  true, false, inl, inr, some, List, [], ◌∷◌, ◌++◌, length, length-append, drop, drop-append, ◌==◌,
  if◌then◌else◌,
}
use mathlib.Core.List.{append-nil, append_assoc}
use decentralized_poker_engi.Int64.{word}
use decentralized_poker_engi.Network.KeyShares.{
  KeyShare, WireType, varint_type, bytes_type, other_type, ProtoWire, share_read, word32,
  sign_extend, empty_share, put_name, put_number, put_value, marshal_key_share, read_field,
  read_fields, unmarshal_key_share,
}

-- The field numbers that protowire takes.
abbrev pub IsFieldNumber : ℕ → Type 0
IsFieldNumber num = (1 ≤ num) × (num ≤ 536870911)

-- What protowire's documents promise: Append appends, and Consume reads back what was appended,
-- whatever follows, with its length. It is asked of the field numbers that are valid, of the two wire
-- types that are used, of varints of 64 bits and of bytes; the tag of a valid number is not empty.
pub record IsProtoWire (w : ProtoWire) : Type 0 where
  pub tag_appends :
      (b : List ℕ) (num : ℕ) (typ : WireType)
      → IsFieldNumber num
      → w.append_tag b num typ ≡ b ++ w.append_tag [] num typ
  pub string_appends : (b : List ℕ) (s : ℕ) → w.append_string b s ≡ b ++ w.append_string [] s
  pub varint_appends :
      (b : List ℕ) (v : ℕ) → v < word → w.append_varint b v ≡ b ++ w.append_varint [] v
  pub bytes_appends :
      (b v : List ℕ) → All (λ x. x < 256) v → w.append_bytes b v ≡ b ++ w.append_bytes [] v
  pub tag_reads :
      (num : ℕ) (typ : WireType) (rest : List ℕ)
      → IsFieldNumber num
      → typ ≢ other_type
      → w.consume_tag (w.append_tag [] num typ ++ rest)
        ≡ some (num, typ, length (w.append_tag [] num typ))
  pub tag_some :
      (num : ℕ) (typ : WireType) → IsFieldNumber num → 0 < length (w.append_tag [] num typ)
  pub string_reads :
      (s : ℕ) (rest : List ℕ)
      → w.consume_string (w.append_string [] s ++ rest) ≡ some (s, length (w.append_string [] s))
  pub varint_reads :
      (v : ℕ) (rest : List ℕ)
      → v < word
      → w.consume_varint (w.append_varint [] v ++ rest) ≡ some (v, length (w.append_varint [] v))
  pub bytes_reads :
      (v rest : List ℕ)
      → All (λ x. x < 256) v
      → w.consume_bytes (w.append_bytes [] v ++ rest) ≡ some (v, length (w.append_bytes [] v))

-- A message of Go's types: the hand has 64 bits, the index 32, and the value is bytes.
pub record IsInRange (msg : KeyShare) : Type 0 where
  pub hand : msg.hand_num < word
  pub index : msg.index < word32
  pub value : All (λ x. x < 256) msg.value

module _ (w : ProtoWire) (laws : IsProtoWire w) where
  -- With fuel for each byte the loop reads `r` from the bytes.
  abbrev ReadsAs : List ℕ → KeyShare → KeyShare → Type 0
  ReadsAs bytes msg r =
      (fuel : ℕ) → length bytes ≤ fuel → read_fields w fuel bytes msg ≡ share_read r

  nothing_left : (msg : KeyShare) → ReadsAs [] msg msg
  unfolding read_fields
  nothing_left msg zero h = refl
  nothing_left msg (suc fuel) h = refl

  -- A round of the loop at bytes of which the tag and the value are known.
  round :
      (fuel num n k : ℕ) (typ : WireType) (bytes : List ℕ) (msg msg' : KeyShare)
      → 0 < length bytes
      → w.consume_tag bytes ≡ some (num, typ, n)
      → read_field w num typ (drop n bytes) msg ≡ some (msg', k)
      → read_fields w (suc fuel) bytes msg ≡ read_fields w fuel (drop k (drop n bytes)) msg'
  unfolding read_fields
  round fuel num n k typ [] msg msg' some_bytes tag field = absurd (omega arith)
  round fuel num n k typ (x ∷ xs) msg msg' some_bytes tag field = rw (tag, field, read_fields) refl

  -- One field in front of what is read.
  field-ReadsAs :
      (num : ℕ) (typ : WireType) (v rest : List ℕ) (msg msg' r : KeyShare)
      → IsFieldNumber num
      → typ ≢ other_type
      → read_field w num typ (v ++ rest) msg ≡ some (msg', length v)
      → ReadsAs rest msg' r
      → ReadsAs (w.append_tag [] num typ ++ (v ++ rest)) msg r
  field-ReadsAs num typ v rest msg msg' r valid used field reads zero h = absurd (
      omega
        (arith, laws.tag_some num typ valid, length-append (w.append_tag [] num typ) (v ++ rest)))
  field-ReadsAs num typ v rest msg msg' r valid used field reads (suc fuel) h =
      let tag = w.append_tag [] num typ in
      let bytes = tag ++ (v ++ rest) in
      let after : drop (length tag) bytes ≡ v ++ rest = drop-append tag (v ++ rest) in
      let longer : 0 < length bytes =
        omega (arith, laws.tag_some num typ valid, length-append tag (v ++ rest)) in
      let fits : length rest ≤ fuel =
        omega (
          arith,
          laws.tag_some num typ valid,
          length-append tag (v ++ rest),
          length-append v rest,
        ) in
      round fuel num (length tag) (length v) typ bytes msg msg' longer
        (laws.tag_reads num typ (v ++ rest) valid used)
        (ap (λ (t : List ℕ). read_field w num typ t msg) after ∙ field)
      ∙ ap (λ (t : List ℕ). read_fields w fuel (drop (length v) t) msg') after
      ∙ ap (λ (t : List ℕ). read_fields w fuel t msg') (drop-append v rest)
      ∙ reads fuel fits

  -- What a field adds at the end of the bytes, if it is not left out.
  abbrev part : Bool → ℕ → WireType → List ℕ → List ℕ
  part left_out num typ v = if left_out then [] else w.append_tag [] num typ ++ v

  part-ReadsAs :
      (left_out : Bool) (num : ℕ) (typ : WireType) (v rest : List ℕ) (msg msg' r : KeyShare)
      → IsFieldNumber num
      → typ ≢ other_type
      → (left_out ≡ true → msg' ≡ msg)
      → read_field w num typ (v ++ rest) msg ≡ some (msg', length v)
      → ReadsAs rest msg' r
      → ReadsAs (part left_out num typ v ++ rest) msg r
  part-ReadsAs true num typ v rest msg msg' r valid used same field reads =
      subst (λ (t : KeyShare). ReadsAs rest t r) (same refl) reads
  part-ReadsAs false num typ v rest msg msg' r valid used same field reads =
      subst (λ (t : List ℕ). ReadsAs t msg r) (sym (append_assoc (w.append_tag [] num typ) v rest))
        (field-ReadsAs num typ v rest msg msg' r valid used field reads)

  put_name-append :
      (num name : ℕ) (b : List ℕ)
      → IsFieldNumber num
      → put_name w num name b ≡ b ++ part (name == 0) num bytes_type (w.append_string [] name)
  unfolding put_name
  put_name-append num name b valid = elim (Bool-cases (name == 0)) [
    | inl e ↦ rw (e, append-nil)
    | inr e ↦ rw (
      e,
      laws.string_appends (w.append_tag b num bytes_type) name,
      laws.tag_appends b num bytes_type valid,
      append_assoc,
    )
  ]

  put_number-append :
      (num v : ℕ) (b : List ℕ)
      → IsFieldNumber num
      → v < word
      → put_number w num v b ≡ b ++ part (v == 0) num varint_type (w.append_varint [] v)
  unfolding put_number
  put_number-append num v b valid small = elim (Bool-cases (v == 0)) [
    | inl e ↦ rw (e, append-nil)
    | inr e ↦ rw (
      e,
      laws.varint_appends (w.append_tag b num varint_type) v small,
      laws.tag_appends b num varint_type valid,
      append_assoc,
    )
  ]

  put_value-append :
      (num : ℕ) (v b : List ℕ)
      → IsFieldNumber num
      → All (λ x. x < 256) v
      → put_value w num v b ≡ b ++ part (length v == 0) num bytes_type (w.append_bytes [] v)
  unfolding put_value
  put_value-append num v b valid small = elim (Bool-cases (length v == 0)) [
    | inl e ↦ rw (e, append-nil)
    | inr e ↦ rw (
      e,
      laws.bytes_appends (w.append_tag b num bytes_type) v small,
      laws.tag_appends b num bytes_type valid,
      append_assoc,
    )
  ]

  -- The bytes of a share, part by part.
  abbrev parts : KeyShare → List ℕ
  parts msg =
      part (msg.table_id == 0) 1 bytes_type (w.append_string [] msg.table_id)
      ++ (part (msg.hand_num == 0) 2 varint_type (w.append_varint [] msg.hand_num)
          ++ (part (msg.owner_id == 0) 3 bytes_type (w.append_string [] msg.owner_id)
              ++ (part (sign_extend msg.index == 0) 4 varint_type
                    (w.append_varint [] (sign_extend msg.index))
                  ++ (part (length msg.value == 0) 5 bytes_type (w.append_bytes [] msg.value)
                      ++ []))))

  sign_extend_back : (v : ℕ) → v < word32 → sign_extend v % word32 ≡ v
  unfolding sign_extend
  sign_extend_back v h = ground arith

  sign_extend-lt : (v : ℕ) → v < word32 → sign_extend v < word
  unfolding sign_extend
  sign_extend-lt v h = ground arith

  marshal-parts : (msg : KeyShare) → IsInRange msg → marshal_key_share w msg ≡ parts msg
  unfolding marshal_key_share
  marshal-parts msg range =
      let index = sign_extend-lt msg.index range.index in
      let put1 = put_name-append 1 msg.table_id [] (omega arith, omega arith) in
      let b1 = put_name w 1 msg.table_id [] in
      let put2 = put_number-append 2 msg.hand_num b1 (omega arith, omega arith) range.hand in
      let b2 = put_number w 2 msg.hand_num b1 in
      let put3 = put_name-append 3 msg.owner_id b2 (omega arith, omega arith) in
      let b3 = put_name w 3 msg.owner_id b2 in
      let put4 = put_number-append 4 (sign_extend msg.index) b3 (omega arith, omega arith) index in
      let b4 = put_number w 4 (sign_extend msg.index) b3 in
      let put5 = put_value-append 5 msg.value b4 (omega arith, omega arith) range.value in
      rw (put5, put4, put3, put2, put1, append-nil, append_assoc, append_assoc, append_assoc) refl

  no_value : (v : List ℕ) → (length v == 0) ≡ true → v ≡ []
  no_value [] h = refl
  no_value (x ∷ xs) h = absurd (ground arith)

  module _ (msg : KeyShare) (range : IsInRange msg) where
    -- The message after each field.
    abbrev after1 : KeyShare
    after1 = record empty_share { table_id = msg.table_id }

    abbrev after2 : KeyShare
    after2 = record after1 { hand_num = msg.hand_num }

    abbrev after3 : KeyShare
    after3 = record after2 { owner_id = msg.owner_id }

    abbrev after4 : KeyShare
    after4 = record after3 { index = msg.index }

    field1 :
        (rest : List ℕ)
        → read_field w 1 bytes_type (w.append_string [] msg.table_id ++ rest) empty_share
          ≡ some (after1, length (w.append_string [] msg.table_id))
    unfolding read_field
    field1 rest = rw (laws.string_reads msg.table_id rest) refl

    field2 :
        (rest : List ℕ)
        → read_field w 2 varint_type (w.append_varint [] msg.hand_num ++ rest) after1
          ≡ some (after2, length (w.append_varint [] msg.hand_num))
    unfolding read_field
    field2 rest = rw (laws.varint_reads msg.hand_num rest range.hand) refl

    field3 :
        (rest : List ℕ)
        → read_field w 3 bytes_type (w.append_string [] msg.owner_id ++ rest) after2
          ≡ some (after3, length (w.append_string [] msg.owner_id))
    unfolding read_field
    field3 rest = rw (laws.string_reads msg.owner_id rest) refl

    field4 :
        (rest : List ℕ)
        → read_field w 4 varint_type (w.append_varint [] (sign_extend msg.index) ++ rest) after3
          ≡ some (after4, length (w.append_varint [] (sign_extend msg.index)))
    unfolding read_field
    field4 rest =
        rw
          (
            laws.varint_reads (sign_extend msg.index) rest (sign_extend-lt msg.index range.index),
            sign_extend_back msg.index range.index,
          )
          refl

    field5 :
        (rest : List ℕ)
        → read_field w 5 bytes_type (w.append_bytes [] msg.value ++ rest) after4
          ≡ some (msg, length (w.append_bytes [] msg.value))
    unfolding read_field
    field5 rest = rw (laws.bytes_reads msg.value rest range.value) refl

    parts-ReadsAs : ReadsAs (parts msg) empty_share msg
    unfolding sign_extend
    parts-ReadsAs =
        part-ReadsAs (msg.table_id == 0) 1 bytes_type (w.append_string [] msg.table_id) _
          empty_share after1 msg (omega arith, omega arith) (λ h. cc) (λ h. ground (arith, h))
          (field1 _)
          (part-ReadsAs (msg.hand_num == 0) 2 varint_type (w.append_varint [] msg.hand_num) _ after1
            after2 msg (omega arith, omega arith) (λ h. cc) (λ h. ground (arith, h)) (field2 _)
            (part-ReadsAs (msg.owner_id == 0) 3 bytes_type (w.append_string [] msg.owner_id) _
              after2 after3 msg (omega arith, omega arith) (λ h. cc) (λ h. ground (arith, h))
              (field3 _)
              (part-ReadsAs (sign_extend msg.index == 0) 4 varint_type
                (w.append_varint [] (sign_extend msg.index)) _ after3 after4 msg
                (omega arith, omega arith) (λ h. cc) (λ h. ground (arith, h)) (field4 _)
                (part-ReadsAs (length msg.value == 0) 5 bytes_type (w.append_bytes [] msg.value) []
                  after4 msg msg (omega arith, omega arith) (λ h. cc)
                  (λ h. ground (arith, h, no_value msg.value h)) (field5 []) (nothing_left msg)))))

  -- UnmarshalKeyShare reads back what MarshalKeyShare writes, for every share of Go's types, also of a
  -- negative index; its loop does not run out of fuel. protowire reads back what it appends, for valid
  -- field numbers.
  pub unmarshal-marshal_key_share :
      (msg : KeyShare)
      → IsInRange msg
      → unmarshal_key_share w (marshal_key_share w msg) ≡ share_read msg
  unfolding unmarshal_key_share
  unmarshal-marshal_key_share msg range =
      rw (marshal-parts msg range) (parts-ReadsAs msg range (length (parts msg)) (omega arith))
