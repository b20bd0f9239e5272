-- ===== src/Package/Examples.antt =====
-- Inputs for the theorem on packages, and runs of the code on them.
use relay_proxy.Base.{◌≡◌, refl}
use relay_proxy.Base.{none, some}
use relay_proxy.Base.{[], ◌∷◌, arith}
use relay_proxy.Base.{replicate}
use relay_proxy.Base.{Bytes, codes}
use relay_proxy.Base.{int_key, bytes_key}
use relay_proxy.Package.{Package, put_int32, get_int32, encode, decode, set_service_name}
use relay_proxy.Package.RoundTrip.{decode-encode}

abbrev request : Package
request = record {
  len = 0;
  version = 1000000;
  seq_no = 7;
  msg_type = 3;
  service_name = codes "pay";
  result = 0;
  data_len = 2;
  content = codes "a=";
}

put_int32_test : put_int32 1000000 ≡ 0 ∷ 15 ∷ 66 ∷ 64 ∷ []
unfolding put_int32
put_int32_test = refl

-- A buffer that is too small, and one that does not have the length of its data.
too_small_test : encode (replicate 32 0) request 91 ≡ none
unfolding encode
too_small_test = refl

decode_test : decode (replicate 91 0) ≡ none
unfolding decode get_int32
decode_test = refl

set_service_name_test : (set_service_name (replicate 40 65) request).service_name ≡ replicate 31 65
unfolding set_service_name
set_service_name_test = refl

decode-encode_example :
    (buf : Bytes) × (encode (replicate 32 0) request 100 ≡ some (record request { len = 92 }, buf))
    × (decode buf ≡ some (record request { len = 92 }))
decode-encode_example =
    decode-encode (replicate 32 0) request 100 refl
      (record {
        version = omega arith;
        seq_no = omega arith;
        msg_type = omega arith;
        result = omega arith;
        size = omega arith;
        name = (refl, (refl, (refl, tt)));
        name_bound = omega arith;
        whole = refl;
      })
      (omega arith)
