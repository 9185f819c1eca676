-- ===== src/ZeroConf/Runs.antt =====
-- The records of an Airplay source.
use libcornrow.Base.{codes, ◌≡◌, refl, [], ◌∷◌, arith}
use libcornrow.ZeroConf.{TxtRecords, txt_record}
use libcornrow.ZeroConf.Records.{read_records, read_records-txt_record}

abbrev two_records : TxtRecords
two_records = (codes "ch", codes "2") ∷ (codes "et", codes "0,1") ∷ []

txt_record_run : txt_record two_records ≡ codes "\u{4}ch=2\u{6}et=0,1"
unfolding txt_record
txt_record_run = refl

read_records-txt_record_example : read_records 2 (txt_record two_records) ≡ two_records
read_records-txt_record_example =
    read_records-txt_record two_records 2
      (
        (omega arith, (λ e. omega (arith, e), (λ e. omega (arith, e), tt))),
        ((omega arith, (λ e. omega (arith, e), (λ e. omega (arith, e), tt))), tt),
      )
      (omega arith)
