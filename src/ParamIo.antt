-- ===== src/ParamIo.antt =====
-- common/param-io.c: the parameters that the programs send each other, as text behind its length.
pub mod RoundTrip
pub mod Equal
use viewglob.Base.{
  ℕ, zero, suc, ◌+◌, ◌-◌, Bool, true, false, ◌&&◌, List, [], ◌∷◌, ◌++◌, Option, none, some, Bytes,
  codes, c_string, ltb, leb, ◌==◌, length, take, drop, if◌then◌else◌,
}
use viewglob.Libs.{Libs}
use viewglob.Connection.{memcpy}
use viewglob.HardenedIo.{
  IoResult, ior_ok, ior_error, ior_eof, Reading, IoRead, read_all, Writing, IoWrite, writev_all,
}

-- `enum parameter`, less `P_COUNT`
pub data Parameter : Type 0 where
  p_none p_purpose p_version p_term_title p_vgexpand_opts : Parameter
  p_status p_pwd p_cmd p_mask p_developing_mask : Parameter
  p_vgexpand_data p_order p_key p_file p_win_id p_reason p_eof : Parameter

-- `param_to_string`, which looks in the array `params`
unfoldable pub param_to_string : Parameter → Bytes
param_to_string p_none = codes "none"
param_to_string p_purpose = codes "purpose"
param_to_string p_version = codes "version"
param_to_string p_term_title = codes "term-title"
param_to_string p_vgexpand_opts = codes "vgexpand-opts"
param_to_string p_status = codes "status"
param_to_string p_pwd = codes "pwd"
param_to_string p_cmd = codes "cmd"
param_to_string p_mask = codes "mask"
param_to_string p_developing_mask = codes "developing-mask"
param_to_string p_vgexpand_data = codes "vgexpand-data"
param_to_string p_order = codes "order"
param_to_string p_key = codes "key"
param_to_string p_file = codes "file"
param_to_string p_win_id = codes "win-id"
param_to_string p_reason = codes "reason"
param_to_string p_eof = codes "eof"

abbrev all_params : List Parameter
all_params =
    p_none ∷ p_purpose ∷ p_version ∷ p_term_title ∷ p_vgexpand_opts ∷ p_status ∷ p_pwd ∷ p_cmd
    ∷ p_mask ∷ p_developing_mask ∷ p_vgexpand_data ∷ p_order ∷ p_key ∷ p_file ∷ p_win_id ∷ p_reason
    ∷ p_eof ∷ []

-- STREQ
abbrev pub streq : Bytes → Bytes → Bool
streq [] [] = true
streq (a ∷ s) (b ∷ t) = a == b && streq s t
streq _ _ = false

-- the loop of `string_to_param`
unfoldable pub find_param : Bytes → List Parameter → Parameter
unfolding param_to_string
find_param s [] = p_none
find_param s (q ∷ qs) =
    let later = find_param s qs in if streq s (param_to_string q) then q else later

unfoldable pub string_to_param : Bytes → Parameter
unfolding find_param
string_to_param s = find_param s all_params

abbrev pub buffer_size : ℕ
buffer_size = 102400

-- The end of a value.
abbrev pub value_end : Bytes
value_end = 0o27 ∷ 0o27 ∷ []

-- A 32-bit number in network order in memory: htonl and ntohl, with the four bytes of a `guint32`.
pub record NetworkOrder : Type 0 where
  pub to_network : ℕ → Bytes
  pub from_network : Bytes → ℕ

-- What `get_param` gives: a parameter with its value, or FALSE. Where the length is more than the
-- buffer holds, `read_all` writes beyond it and nothing is known.
pub data Received : Type 0 where
  received : Parameter → Bytes → Received
  not_received beyond_buffer : Received

abbrev pub message : Parameter → Bytes → Bytes
message param value = param_to_string param ++ (b':' ∷ c_string value ++ value_end)

abbrev pub is_ok : IoResult → Bool
is_ok ior_ok = true
is_ok _ = false

abbrev pub eof_received : Received
eof_received = received p_eof (codes "EOF received")

-- The place of the end of the value is known.
abbrev pub with_value : Bytes → ℕ → Option ℕ → Received
with_value buf i none = not_received
with_value buf i (some j) =
    received (string_to_param (c_string (take i buf))) (c_string (take j (drop (i + 1) buf)))

module _ (libs : Libs) where
  -- The place of the colon is known.
  abbrev pub with_name : Bytes → ℕ → Option ℕ → Received
  with_name buf bytes none = not_received
  with_name buf bytes (some i) =
      with_value buf i (libs.strstr_len (drop (i + 1) buf) (bytes - (i + 1)) value_end)

  -- The parsing of the first `bytes` bytes of the buffer.
  unfoldable pub parse_param : Bytes → ℕ → Received
  parse_param buf bytes = with_name buf bytes (libs.strstr_len buf bytes (b':' ∷ []))

  abbrev pub after_read : Bytes → ℕ → IoRead → Received
  after_read buf bytes r = elim r.result [
    | ior_ok ↦ parse_param (memcpy 0 r.data_read buf) bytes
    | ior_eof ↦ eof_received
    | ior_error ↦ not_received
  ]

  abbrev pub with_data : Bytes → ℕ → Option IoRead → Option Received
  with_data buf bytes none = none
  with_data buf bytes (some r) = some (after_read buf bytes r)

  abbrev pub get_value : Bytes → ℕ → List Reading → Option Received
  get_value buf bytes rs =
      if ltb buffer_size bytes then some beyond_buffer else with_data buf bytes (read_all bytes rs)

module _ (libs : Libs) (net : NetworkOrder) where
  -- The length was read.
  abbrev pub with_length : Bytes → Option IoRead → Option Received
  with_length buf none = none
  with_length buf (some r) = elim r.result [
    | ior_ok ↦ get_value libs buf (net.from_network r.data_read) r.later
    | ior_eof ↦ some eof_received
    | ior_error ↦ some not_received
  ]

  -- `get_param`, with the contents of the static buffer and what the reads return. What a call
  -- leaves in the buffer is overwritten before the next looks at it.
  unfoldable pub get_param : Bytes → List Reading → Option Received
  get_param buf rs = with_length buf (read_all 4 rs)

-- `put_param` says whether all was written.
abbrev pub reported : Option IoWrite → Option (Bytes × Bool)
reported none = none
reported (some w) = some (w.data_written, is_ok w.result)

-- What goes out, and what `put_param` returns.
unfoldable pub put_param : NetworkOrder → Parameter → Bytes → List Writing → Option (Bytes × Bool)
unfolding writev_all param_to_string
put_param net param value ws =
    let string = message param value in
    if ltb buffer_size (length string)
    then some ([], false)
    else reported (writev_all (net.to_network (length string) ∷ string ∷ []) ws)
