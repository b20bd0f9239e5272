-- ===== src/Conf/Entries.antt =====
-- The lines of the servers (`CCoreServerConf::_get_line`), read into the configuration and the pools.
use relay_proxy.Base.{
  ◌≡◌, refl, ap, ◌∙◌, ℤ, Bytes, Bool, true, false, not, ◌==◌, if◌then◌else◌, Option, none, some,
  List, [], ◌∷◌, ◌++◌, map, All, Map, find, insert, find-insert, int_key, eqb_ℤ, Result, ok, throw,
  config_exception, err_conf,
}
use relay_proxy.Text.{is_space, strstrip, atoi}
use relay_proxy.Text.Split.{IsPart, join, starts}
use relay_proxy.Access.Lines.{
  strstrip-IsStripped, IsPart-IsStripped, strtok-found, strtok-last, join-IsStripped,
}
use relay_proxy.Socket.Framing.{if_true}
use relay_proxy.Conf.{
  CoreServerConf, CoreServers, next_field, get_server_line, is_config_line, read_conf, add_pools,
  re_init,
}
use relay_proxy.Conf.Servers.{kept_or_new, find-add_pools}

-- What a line says, as texts.
pub record Entry : Type 0 where
  pub site_no : Bytes
  pub conn_num : Bytes
  pub max_conn_num : Bytes
  pub server_name : Bytes
  pub port : Bytes
  pub time_out : Bytes
  pub user : Bytes
  pub passwd : Bytes

abbrev pub other_fields : Entry → List Bytes
other_fields e =
    e.conn_num ∷ e.max_conn_num ∷ e.server_name ∷ e.port ∷ e.time_out ∷ e.user ∷ e.passwd ∷ []

abbrev pub line : Entry → Bytes
line e = join 44 (e.site_no ∷ other_fields e)

abbrev pub is_no_comment : Bytes → Bool
is_no_comment [] = true
is_no_comment (c ∷ s) = not (c == 35)

-- No field is empty, has white space at its ends or holds a comma, and the first begins no comment.
abbrev pub IsEntry : Entry → Type 0
IsEntry e = All (IsPart 44) (e.site_no ∷ other_fields e) × (is_no_comment e.site_no ≡ true)

abbrev pub entry_conf : Entry → CoreServerConf
entry_conf e = record {
  site_no = atoi e.site_no;
  conn_num = atoi e.conn_num;
  max_conn_num = atoi e.max_conn_num;
  server_name = e.server_name;
  port = atoi e.port;
  time_out = atoi e.time_out;
  user = e.user;
  passwd = e.passwd;
}

-- What the last entry of a site says.
pub last_entry : ℤ → List Entry → Option CoreServerConf → Option CoreServerConf
last_entry site_no [] o = o
last_entry site_no (e ∷ es) o =
    last_entry site_no es (if eqb_ℤ (atoi e.site_no) site_no then some (entry_conf e) else o)

abbrev token_and_rest : Option (Bytes × Bytes) → Result (Bytes × Bytes)
token_and_rest none = throw (config_exception err_conf)
token_and_rest (some (token, rest)) = ok (strstrip token, rest)

next_field-found : (s t : Bytes) → IsPart 44 s → next_field (s ++ 44 ∷ t) ≡ ok (s, t)
unfolding next_field
next_field-found s t (f, b, e) =
    ap token_and_rest (strtok-found 44 s t f b)
    ∙ ap (λ x. ok (x, t)) (strstrip-IsStripped s (IsPart-IsStripped 44 s (f, b, e)))

next_field-last : (s : Bytes) → IsPart 44 s → next_field s ≡ ok (s, [])
unfolding next_field
next_field-last s (f, b, e) =
    ap token_and_rest (strtok-last 44 s f b)
    ∙ ap (λ x. ok (x, [])) (strstrip-IsStripped s (IsPart-IsStripped 44 s (f, b, e)))

get_server_line-line :
    (e : Entry) (c : CoreServers)
    → All (IsPart 44) (e.site_no ∷ other_fields e)
    → get_server_line (line e) c
      ≡ ok (record c {
        core_server_conf = insert (atoi e.site_no) (entry_conf e) c.core_server_conf;
      })
unfolding get_server_line join
get_server_line-line e c (p0, (p1, (p2, (p3, (p4, (p5, (p6, (p7, _)))))))) = simp (
  next_field-found e.site_no
      (join 44 (
        e.conn_num ∷ e.max_conn_num ∷ e.server_name ∷ e.port ∷ e.time_out ∷ e.user ∷ e.passwd ∷ []))
      p0,
  next_field-found e.conn_num
      (join 44 (e.max_conn_num ∷ e.server_name ∷ e.port ∷ e.time_out ∷ e.user ∷ e.passwd ∷ [])) p1,
  next_field-found e.max_conn_num
      (join 44 (e.server_name ∷ e.port ∷ e.time_out ∷ e.user ∷ e.passwd ∷ [])) p2,
  next_field-found e.server_name (join 44 (e.port ∷ e.time_out ∷ e.user ∷ e.passwd ∷ [])) p3,
  next_field-found e.port (join 44 (e.time_out ∷ e.user ∷ e.passwd ∷ [])) p4,
  next_field-found e.time_out (join 44 (e.user ∷ e.passwd ∷ [])) p5,
  next_field-found e.user (join 44 (e.passwd ∷ [])) p6,
  next_field-last e.passwd p7,
)

config_line : (e : Entry) → IsEntry e → is_config_line (line e) ≡ true
unfolding join
config_line e (ps, n) = first e.site_no _ ps.0.1 n
  where
    first :
        (s t : Bytes) → starts s ≡ true → is_no_comment s ≡ true → is_config_line (s ++ t) ≡ true
    first [] t b n = absurd (cc b)
    first (c ∷ s) t b n = n

-- The map after the entries, in their order.
inserts : List Entry → Map ℤ CoreServerConf → Map ℤ CoreServerConf
inserts [] m = m
inserts (e ∷ es) m = inserts es (insert (atoi e.site_no) (entry_conf e) m)

abbrev kept : Result CoreServers → CoreServers → CoreServers
kept r c = elim r [ ok d ↦ d | throw e ↦ c ]

abbrev read_line : Bytes → CoreServers → CoreServers
read_line s c = kept (get_server_line s c) c

is_no_space : is_space 44 ≡ false
unfolding is_space
is_no_space = refl

read_conf-lines :
    (es : List Entry) (c : CoreServers)
    → All IsEntry es
    → read_conf get_server_line (map line es) c
      ≡ record c { core_server_conf = inserts es c.core_server_conf }
unfolding read_conf inserts
read_conf-lines [] c h = refl
read_conf-lines (e ∷ es) c ((ps, n), h) =
    let d = record c {
      core_server_conf = insert (atoi e.site_no) (entry_conf e) c.core_server_conf;
    } in
    let whole = join-IsStripped 44 e.site_no (other_fields e) is_no_space ps in
    let same = strstrip-IsStripped (line e) whole in
    let here = ap is_config_line same ∙ config_line e (ps, n) in
    ap (read_conf get_server_line (map line es)) (
      if_true (is_config_line (strstrip (line e))) (read_line (strstrip (line e)) c) c here
      ∙ ap (λ s. read_line s c) same
      ∙ ap (λ r. kept r c) (get_server_line-line e c ps))
    ∙ read_conf-lines es d h

find-inserts :
    (site_no : ℤ) (es : List Entry) (m : Map ℤ CoreServerConf)
    → find site_no (inserts es m) ≡ last_entry site_no es (find site_no m)
unfolding inserts last_entry
find-inserts site_no [] m = refl
find-inserts site_no (e ∷ es) m =
    find-inserts site_no es (insert (atoi e.site_no) (entry_conf e) m)
    ∙ ap (last_entry site_no es) (find-insert (atoi e.site_no) site_no (entry_conf e) m)

-- After a file with a line for each entry was read again, a site is configured as the last entry of its
-- number says, and only if there is one, whatever was configured before. A site that had a pool keeps
-- that very pool, and a site without one has a new pool exactly if it is configured, made with the
-- name and the numbers of the entry. No field of an entry is empty, has white space at its ends or holds
-- a comma, and the first begins no comment.
pub re_init-entries :
    (site_no : ℤ) (es : List Entry) (c : CoreServers)
    → All IsEntry es
    → let d = re_init (map line es) c in
      (find site_no d.core_server_conf ≡ last_entry site_no es none)
      × (find site_no d.api_pool
          ≡ kept_or_new (find site_no c.api_pool) (last_entry site_no es none))
unfolding re_init find
re_init-entries site_no es c h =
    let read = read_conf-lines es (record c { core_server_conf = [] }) h in
    let conf =
      ap (λ (d : CoreServers). find site_no d.core_server_conf) read ∙ find-inserts site_no es [] in
    (
      conf,
      ap (λ (d : CoreServers). find site_no (add_pools d.core_server_conf d.api_pool)) read
          ∙ find-add_pools site_no (inserts es []) c.api_pool
          ∙ ap (kept_or_new (find site_no c.api_pool)) (find-inserts site_no es []),
    )
