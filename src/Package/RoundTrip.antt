-- ===== src/Package/RoundTrip.antt =====
-- The round trip of `Encode` and `Decode` (`api/trpc_package.cpp`).
use relay_proxy.Base.{ℕ, zero, suc, ◌+◌, ◌-◌, ◌%◌, ◌^◌, ◌≤◌, ◌<◌}
use relay_proxy.Base.{◌≡◌, refl, ap, ◌∙◌}
use relay_proxy.Base.{false, Option, none, some}
use relay_proxy.Base.{[], ◌∷◌, ◌++◌, arith}
use relay_proxy.Base.{◌==◌, if◌then◌else◌}
use relay_proxy.Base.{length, take, drop, replicate, All}
use relay_proxy.Base.{length-append, length-take}
use relay_proxy.Base.{Bytes}
use relay_proxy.Base.{int_key, bytes_key}
use relay_proxy.Package.{
  Package, put_int32, get_int32, put_str, c_string, get_str, encode, decode, stx, etx,
  min_pack_size,
}

get_int32-put_int32 : (n : ℕ) (s : Bytes) → n < 4294967296 → get_int32 (put_int32 n ++ s) ≡ n
unfolding get_int32 put_int32
get_int32-put_int32 n s h = omega (arith, h)

drop_past : (n k : ℕ) (a b : Bytes) → length a ≡ n → drop (n + k) (a ++ b) ≡ drop k b
drop_past zero k [] b h = ap (λ i. drop i b) (zero_plus k)
  where
    zero_plus : (k : ℕ) → 0 + k ≡ k
    zero_plus k = omega arith
drop_past zero k (c ∷ a) b h = absurd (omega (arith, h))
drop_past (suc n) k [] b h = absurd (omega (arith, h))
drop_past (suc n) k (c ∷ a) b h =
    ap (λ i. drop i (c ∷ (a ++ b))) (suc_plus n k) ∙ drop_past n k a b (omega (arith, h))
  where
    suc_plus : (n k : ℕ) → suc n + k ≡ suc (n + k)
    suc_plus n k = omega arith

abbrev zeros : ℕ → Bytes
zeros n = replicate n 0

length-replicate : (n : ℕ) → length (zeros n) ≡ n
length-replicate zero = refl
length-replicate (suc n) = omega (arith, length-replicate n)

length-put_str : (s : Bytes) → length (put_str s) ≡ 32
unfolding put_str
length-put_str s = omega (
  arith,
  length-take 32 (s ++ replicate 32 0),
  length-append s (replicate 32 0),
  length-replicate 32,
)

abbrev pub NoNul : Bytes → Type 0
NoNul s = All (λ c. (c == 0) ≡ false) s

c_string-take : (n : ℕ) (s t : Bytes) → NoNul s → length s ≤ n → c_string (take n (s ++ 0 ∷ t)) ≡ s
unfolding c_string
c_string-take zero [] t h l = refl
c_string-take zero (c ∷ s) t h l = absurd (omega (arith, l))
c_string-take (suc n) [] t h l = refl
c_string-take (suc n) (c ∷ s) t (hc, h) l =
    ground (arith, hc, c_string-take n s t h (omega (arith, l)))

take-take : (n : ℕ) (s t : Bytes) → n ≤ length s → take n (take (suc n) s ++ t) ≡ take n s
take-take zero s t h = refl
take-take (suc n) [] t h = absurd (omega (arith, h))
take-take (suc n) (c ∷ s) t h = ap (λ x. c ∷ x) (take-take n s t (omega (arith, h)))

get_str-put_str : (s t : Bytes) → NoNul s → length s ≤ 31 → get_str (put_str s ++ t) ≡ s
unfolding get_str put_str
get_str-put_str s t h l =
    ap c_string (
      take-take 31 (s ++ replicate 32 0) t
        (omega (arith, length-append s (replicate 32 0), length-replicate 32)))
    ∙ c_string-take 31 s (replicate 31 0) h (omega (arith, l))

abbrev IsWord : ℕ → Type 0
IsWord n = n < 4294967296

-- A package that a program may build: its fields fit their bytes, and the data is all there.
pub record IsPackage (p : Package) : Type 0 where
  pub version : IsWord p.version
  pub seq_no : IsWord p.seq_no
  pub msg_type : IsWord p.msg_type
  pub result : IsWord p.result
  pub size : IsWord (p.data_len + min_pack_size)
  pub name : NoNul p.service_name
  pub name_bound : length p.service_name ≤ 31
  pub whole : length p.content ≡ p.data_len

abbrev tail_of : Bytes → Package → Bytes
tail_of reserve p = reserve ++ (put_int32 p.data_len ++ (take p.data_len p.content ++ etx ∷ []))

-- The result, the data length and the data stand behind the name and the reserved part.
abbrev buffer : Bytes → Package → Bytes
buffer reserve p =
    stx
    ∷ (put_int32 (p.data_len + min_pack_size)
        ++ (put_int32 p.version
            ++ (put_int32 p.seq_no
                ++ (put_int32 p.msg_type
                    ++ (put_str p.service_name ++ (put_int32 p.result ++ tail_of reserve p))))))

buffer-result :
    (reserve : Bytes) (p : Package)
    → drop 49 (buffer reserve p) ≡ put_int32 p.result ++ tail_of reserve p
unfolding put_int32
buffer-result reserve p = drop_past 32 0 (put_str p.service_name) _ (length-put_str p.service_name)

buffer-data_len :
    (reserve : Bytes) (p : Package)
    → length reserve ≡ 32
    → drop 85 (buffer reserve p) ≡ put_int32 p.data_len ++ (take p.data_len p.content ++ etx ∷ [])
unfolding put_int32
buffer-data_len reserve p h =
    drop_past 32 36 (put_str p.service_name) _ (length-put_str p.service_name)
    ∙ drop_past 32 0 reserve _ h

buffer-data :
    (reserve : Bytes) (p : Package)
    → length reserve ≡ 32
    → drop 89 (buffer reserve p) ≡ take p.data_len p.content ++ etx ∷ []
unfolding put_int32
buffer-data reserve p h =
    drop_past 32 40 (put_str p.service_name) _ (length-put_str p.service_name)
    ∙ drop_past 32 4 reserve _ h

length-buffer :
    (reserve : Bytes) (p : Package)
    → length reserve ≡ 32
    → length p.content ≡ p.data_len
    → length (buffer reserve p) ≡ p.data_len + min_pack_size
unfolding put_int32
length-buffer reserve p h w = omega (
  arith,
  h,
  w,
  length-put_str p.service_name,
  length-append (put_str p.service_name) (put_int32 p.result ++ tail_of reserve p),
  length-append reserve (put_int32 p.data_len ++ (take p.data_len p.content ++ etx ∷ [])),
  length-append (take p.data_len p.content) (etx ∷ []),
  length-take p.data_len p.content,
)

buffer-words :
    (reserve : Bytes) (p : Package)
    → IsPackage p
    → (get_int32 (drop 1 (buffer reserve p)) ≡ p.data_len + min_pack_size)
      × (get_int32 (drop 5 (buffer reserve p)) ≡ p.version)
      × (get_int32 (drop 9 (buffer reserve p)) ≡ p.seq_no)
      × (get_int32 (drop 13 (buffer reserve p)) ≡ p.msg_type)
      × (get_str (drop 17 (buffer reserve p)) ≡ p.service_name)
unfolding put_int32
buffer-words reserve p i = (
  get_int32-put_int32 (p.data_len + min_pack_size) _ i.size,
  get_int32-put_int32 p.version _ i.version,
  get_int32-put_int32 p.seq_no _ i.seq_no,
  get_int32-put_int32 p.msg_type _ i.msg_type,
  get_str-put_str p.service_name _ i.name i.name_bound,
)

take-whole : (n : ℕ) (s t : Bytes) → length s ≡ n → take n (take n s ++ t) ≡ s
take-whole zero [] t h = refl
take-whole zero (c ∷ s) t h = absurd (omega (arith, h))
take-whole (suc n) [] t h = absurd (omega (arith, h))
take-whole (suc n) (c ∷ s) t h = ap (λ x. c ∷ x) (take-whole n s t (omega (arith, h)))

unfoldable assemble :
    (size len version seq_no msg_type : ℕ) → Bytes → (result data_len : ℕ) → Bytes → Option Package
assemble size len version seq_no msg_type name result data_len content =
    if data_len == (size + (4294967296 - min_pack_size)) % 2 ^ 32
    then some (record {
      len = len;
      version = version;
      seq_no = seq_no;
      msg_type = msg_type;
      service_name = name;
      result = result;
      data_len = data_len;
      content = content;
    })
    else none

decode-assemble :
    (buf : Bytes)
    → decode buf
      ≡ assemble
          (length buf)
          (get_int32 (drop 1 buf))
          (get_int32 (drop 5 buf))
          (get_int32 (drop 9 buf))
          (get_int32 (drop 13 buf))
          (get_str (drop 17 buf))
          (get_int32 (drop 49 buf))
          (get_int32 (drop 85 buf))
          (take (get_int32 (drop 85 buf)) (drop 89 buf))
unfolding decode assemble
decode-assemble buf = refl

assemble-all :
    (p : Package)
    → p.data_len < 2 ^ 32
    → assemble
        (p.data_len + min_pack_size)
        p.len
        p.version
        p.seq_no
        p.msg_type
        p.service_name
        p.result
        p.data_len
        p.content
      ≡ some p
unfolding assemble
assemble-all p small = rw (same p.data_len small) (ground arith)
  where
    same : (n : ℕ) → n < 2 ^ 32 → (n + min_pack_size + (4294967296 - min_pack_size)) % 2 ^ 32 ≡ n
    same n h = omega (arith, h)

decode-fields :
    (buf : Bytes) (p : Package)
    → get_int32 (drop 1 buf) ≡ p.len
    → get_int32 (drop 5 buf) ≡ p.version
    → get_int32 (drop 9 buf) ≡ p.seq_no
    → get_int32 (drop 13 buf) ≡ p.msg_type
    → get_str (drop 17 buf) ≡ p.service_name
    → get_int32 (drop 49 buf) ≡ p.result
    → get_int32 (drop 85 buf) ≡ p.data_len
    → take p.data_len (drop 89 buf) ≡ p.content
    → length buf ≡ p.data_len + min_pack_size
    → p.data_len < 2 ^ 32
    → decode buf ≡ some p
decode-fields buf p a b c d e f g h l small =
    let content = ap (λ n. take n (drop 89 buf)) g ∙ h in
    decode-assemble buf ∙ cc (a, b, c, d, e, f, g, content, l) ∙ assemble-all p small

decode-buffer :
    (reserve : Bytes) (p : Package)
    → length reserve ≡ 32
    → IsPackage p
    → decode (buffer reserve p) ≡ some (record p { len = p.data_len + min_pack_size })
decode-buffer reserve p h i =
    let (a, b, c, d, e) = buffer-words reserve p i in
    let size : get_int32 (drop 85 (buffer reserve p)) ≡ p.data_len =
      ap get_int32 (buffer-data_len reserve p h)
      ∙ get_int32-put_int32 p.data_len _ (omega (arith, i.size)) in
    let result : get_int32 (drop 49 (buffer reserve p)) ≡ p.result =
      ap get_int32 (buffer-result reserve p) ∙ get_int32-put_int32 p.result _ i.result in
    let content : take p.data_len (drop 89 (buffer reserve p)) ≡ p.content =
      ap (take p.data_len) (buffer-data reserve p h) ∙ take-whole p.data_len p.content _ i.whole in
    decode-fields (buffer reserve p) (record p { len = p.data_len + min_pack_size }) a b c d e
      result size content (length-buffer reserve p h i.whole) (omega (arith, i.size))

-- A package that fits is encoded, and decoding the buffer gives it back with its length set,
-- whatever the reserved 32 bytes hold. The fields fit their bytes, the name is a C string of at most
-- 31 bytes, and the data is as long as `iDataLen` says.
pub decode-encode :
    (reserve : Bytes) (p : Package) (max : ℕ)
    → length reserve ≡ 32
    → IsPackage p
    → p.data_len + min_pack_size ≤ max
    → (buf : Bytes) × (encode reserve p max
        ≡ some (record p { len = p.data_len + min_pack_size }, buf))
      × (decode buf ≡ some (record p { len = p.data_len + min_pack_size }))
unfolding encode
decode-encode reserve p max h i fits =
    (buffer reserve p, ground (arith, fits), decode-buffer reserve p h i)
