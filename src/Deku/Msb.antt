-- ===== src/Deku/Msb.antt =====
-- A concrete reader and writer that behaves as documented: the assumptions can be met.
use quote_link_rs.Base.{◌+◌, ◌*◌, ◌/◌, ◌%◌, refl, length, drop, ok, err, ltb, if◌then◌else◌, arith}
use quote_link_rs.Deku.{Deku, IsMsbFirst, Output, incomplete, bit_field, emit}

abbrev pub msb_first : Deku
msb_first = record {
  read_uint = λ n i.
      if ltb (8 * length i.0) (i.1 + n)
      then err incomplete
      else ok (bit_field n i.1 i.0, (drop ((i.1 + n) / 8) i.0, (i.1 + n) % 8));
  write_uint = λ n v o. ok (emit n v o);
  finalize = Output.done;
}

pub msb_first-IsMsbFirst : IsMsbFirst msb_first
msb_first-IsMsbFirst = record {
  read_short = λ n off bs h. ground arith;
  read_enough = λ n off bs h k. ground arith;
  write_fits = λ n v o h. refl;
  finalize_whole = λ o h. refl;
}
