-- ===== src/Packet/Codecs.antt =====
-- A codec that reads back what it wrote: a number is that many zeros. It stands for one of prost in
-- the runs.
use quote_link_rs.Base.{ℕ, zero, suc, ap, some, length, length-replicate, replicate, All, arith}
use quote_link_rs.Deku.{IsByte}
use quote_link_rs.Protos.{Heartbeat, Message, IsMessage}

abbrev pub unary : Message ℕ
unary = record { encode_to_vec = λ n. replicate n 0; decode = λ bs. some (length bs) }

zeros-IsByte : (n : ℕ) → All IsByte (replicate n 0)
zeros-IsByte zero = tt
zeros-IsByte (suc n) = (omega arith, zeros-IsByte n)

pub unary-IsMessage : IsMessage unary (λ n. Unit {0})
unary-IsMessage = record {
  encode-IsByte = zeros-IsByte;
  decode-encode = λ n v. ap some (length-replicate n 0);
}

abbrev pub unary_heartbeat : Message Heartbeat
unary_heartbeat = record {
  encode_to_vec = λ h. replicate h.timestamp 0;
  decode = λ bs. some (record { timestamp = length bs });
}

pub unary_heartbeat-IsMessage : IsMessage unary_heartbeat (λ h. Unit {0})
unary_heartbeat-IsMessage = record {
  encode-IsByte = λ h. zeros-IsByte h.timestamp;
  decode-encode = λ h v. ap (λ n. some (record { timestamp = n })) (length-replicate h.timestamp 0);
}
