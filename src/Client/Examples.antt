-- ===== src/Client/Examples.antt =====
-- Answers to a client and requests of one, on concrete inputs (`CClientSocket`).
use relay_proxy.Base.{
  ℕ, ◌<◌, ◌≡◌, ◌++◌, refl, arith, pos, negsuc, wrap_int, Bytes, codes, eqb, bytes_lt, true, false,
  List, [], ◌∷◌, length, Map, find, insert, emplace, int_key, bytes_key, ok,
}
use relay_proxy.Text.{atoi, signed_value, digits_value, strchug, is_space}
use relay_proxy.Url.{parse_url, parse_from, parse_nv, find_char, decode_url, is_empty}
use relay_proxy.Routing.{
  RequestKeyConf, value_of, gen_request_key, route, join_values, find_range, covers,
}
use relay_proxy.Socket as Socket
use relay_proxy.Socket.{int_bytes, read_int}
use relay_proxy.Socket.Head.{frame}
use relay_proxy.Client.{
  ClientSocket, Escapes, processing, no_time, no_conf, key_result, key_res_info, busy_text,
  is_original_code, escaped_params, decode, msg_no, digits, drop_zeros, unsigned_text, to_string,
  c_str, contains, is_prefix,
}
use relay_proxy.Client.Answers.{escaped_params-original, decode-fits}

abbrev escapes : Escapes
escapes = (pos 10050, codes "NO_ESCAPE") ∷ []

abbrev refusal : Map Bytes Bytes
refusal = (codes "res_info", codes "no money") ∷ (codes "result", codes "10050") ∷ []

original_test : is_original_code escapes (atoi (value_of key_result refusal)) ≡ true
unfolding is_original_code atoi value_of find signed_value digits_value strchug is_space eqb
original_test = refl

escaped_params-original_example :
    value_of key_res_info (escaped_params escapes false refusal)
    ≡ busy_text (value_of key_result refusal)
escaped_params-original_example = escaped_params-original escapes false refusal original_test

to_string_test : to_string (negsuc 41) ≡ codes "-42"
unfolding to_string unsigned_text digits drop_zeros
to_string_test = refl

abbrev junk : ℕ → ℕ → ℕ
junk a b = 0

abbrev confs : List RequestKeyConf
confs = record { begin = pos 0; end = pos 9; request_key = codes "request_type" ∷ [] } ∷ []

abbrev request : Bytes
request = codes "request_type=5"

-- A client whose request is complete.
abbrev asked : ClientSocket
asked = record {
  status = processing;
  is_open = true;
  thread_no = pos 0;
  seq_no = 1;
  ip = codes "10.0.0.1";
  port = pos 4000;
  receiver = record {
    base = record { process_buf = 14 ∷ 0 ∷ 0 ∷ 0 ∷ request; process_total = 18; processed = 18 };
    is_head = true;
  };
  req_packet = [];
  res_packet = [];
  request_type = negsuc 0;
  request_key = [];
  request_key_index = negsuc 0;
  request_conf = no_conf;
  has_api = false;
  is_system_error = false;
  access_stamp = no_time;
  recv_ok_stamp = no_time;
  process_stamp = no_time;
}

abbrev decoded : ClientSocket
decoded = record asked {
  req_packet = codes "MSG_NO=00317000000000000000008&request_type=5";
  request_type = pos 5;
  request_key = codes "5";
  request_key_index = pos 0;
}

decode_test : decode junk 3 1700000000 7 confs asked ≡ (8, ok decoded)
unfolding decode gen_request_key route join_values find_range covers value_of atoi signed_value
    digits_value strchug is_space eqb find is_empty parse_url parse_from parse_nv find_char
    decode_url emplace insert msg_no bytes_lt digits drop_zeros unsigned_text c_str contains
    is_prefix Socket.decode read_int wrap_int
decode_test = refl

framed : asked.receiver.base.process_buf ≡ frame request
unfolding int_bytes
framed = refl

decode-fits_example :
    (length decoded.req_packet < 32000)
    × ((number : Bytes) × (decoded.req_packet ≡ number ++ request))
decode-fits_example =
    decode-fits junk 3 1700000000 7 confs asked decoded 8 request framed refl (omega arith)
      decode_test
