-- ===== src/ZeroConf/Records.antt =====
-- A reader of TXT records (RFC 6763: a length byte and as many bytes, `key=value`), and the records that the
-- server writes.
use libcornrow.Base.{
  ◌==◌, if◌then◌else◌, length, take, drop, All, length-append, take-append, drop-append, Text,
  codes, ℕ, zero, suc, ◌+◌, ◌%◌, ◌≤◌, ◌<◌, ◌≡◌, refl, ap₂, ◌≢◌, false, [], ◌∷◌, ◌++◌, arith,
}
use libcornrow.ZeroConf.{TxtRecords, txt_record}

-- At the first `=`
unfoldable pub split_pair : Text → Text × Text
split_pair [] = ([], [])
split_pair (c ∷ s) = let (k, v) = split_pair s in if c == b'=' then ([], s) else (c ∷ k, v)

-- On fuel for the records
unfoldable pub read_records : ℕ → Text → TxtRecords
unfolding split_pair
read_records zero s = []
read_records (suc fuel) [] = []
read_records (suc fuel) (n ∷ s) = split_pair (take n s) ∷ read_records fuel (drop n s)

-- A record that one length byte can tell, with no `=` in its key
abbrev pub IsPlain : Text × Text → Type 0
IsPlain (k, v) = (length k + length v + 1 < 256) × All (λ c. c ≢ b'=') k

split_pair_lem : (k v : Text) → All (λ c. c ≢ b'=') k → split_pair (k ++ codes "=" ++ v) ≡ (k, v)
unfolding split_pair
split_pair_lem [] v h = refl
split_pair_lem (c ∷ k) v (other, h) =
    let e : (c == b'=') ≡ false = ground (arith, other) in rw (e, split_pair_lem k v h) refl

-- What the server announces is read back: where each record has fewer than 256 bytes, the `=` included, and no `=` in its
-- key, a reader of TXT records gets the records of the service, in their order.
pub read_records-txt_record :
    (rs : TxtRecords) (fuel : ℕ)
    → All IsPlain rs
    → length rs ≤ fuel
    → read_records fuel (txt_record rs) ≡ rs
unfolding read_records txt_record
read_records-txt_record [] zero plain h = refl
read_records-txt_record [] (suc fuel) plain h = refl
read_records-txt_record (r ∷ rs) zero plain h = absurd (omega arith)
read_records-txt_record ((k, v) ∷ rs) (suc fuel) (one, plain) h =
    let pair = k ++ codes "=" ++ v in
    let long : length pair ≡ length k + length v + 1 =
      omega (arith, length-append (k ++ codes "=") v, length-append k (codes "=")) in
    let small : (length k + length v + 1) % 256 ≡ length pair = omega (arith, one, long) in
    rw (small, take-append pair (txt_record rs), drop-append pair (txt_record rs))
      (ap₂ ◌∷◌ (split_pair_lem k v one.1) (read_records-txt_record rs fuel plain (omega arith)))
