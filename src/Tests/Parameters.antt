-- ===== src/Tests/Parameters.antt =====
-- The theorems about the messages between the programs, each applied to concrete data.
use viewglob.Base.{ℕ, ◌+◌, ◌*◌, ◌/◌, ◌%◌, ◌≡◌, refl, true, [], ◌∷◌, ◌++◌, some, Bytes, codes, arith}
use viewglob.HardenedIo.{
  ior_ok, ior_error, ior_eof, got, read_interrupted, read_failed, read_all, wrote,
  write_interrupted, write_failed, write_all, writev_all,
}
use viewglob.HardenedIo.Reads.{read_all-Reading}
use viewglob.HardenedIo.Writes.{write_all-Writing, writev_all-write_all}
use viewglob.ParamIo.{
  p_cmd, p_pwd, NetworkOrder, received, get_param, string_to_param, put_param, param_to_string,
}
use viewglob.ParamIo.RoundTrip.{
  string_to_param-param_to_string, NetworkOrderLaws, get_param-message, put_param-message,
}
use viewglob.Actions.{no_actions}
use viewglob.Connection.{Connection, connection_init, executing}
use viewglob.Connection.Transfer.{connection_read, connection_write}
use viewglob.Connection.Transfer.Whole.{Gives, connection_read-content, connection_write-outgoing}
use viewglob.Tests.Sample.{libs, reading}
use viewglob.Tests.Laws.{libs-LibsLaws}

abbrev from_bytes : Bytes → ℕ
from_bytes (a ∷ b ∷ c ∷ d ∷ []) = a * 16777216 + b * 65536 + c * 256 + d
from_bytes _ = 0

-- The highest byte first.
abbrev net : NetworkOrder
net = record {
  to_network = λ n. (n / 16777216 % 256) ∷ (n / 65536 % 256) ∷ (n / 256 % 256) ∷ (n % 256) ∷ [];
  from_network = from_bytes;
}

net-NetworkOrderLaws : NetworkOrderLaws net
net-NetworkOrderLaws = record { four_bytes = λ n. refl; back = λ n h. omega (arith, h) }

read_all-Reading_example :
    (read_all 4 (got (codes "ab") ∷ read_interrupted ∷ got (codes "cd") ∷ [])
      ≡ some (record { result = ior_ok; data_read = codes "abcd"; later = [] }))
    × (read_all 4 (got (codes "ab") ∷ read_interrupted ∷ read_failed 5 ∷ [])
        ≡ some (record { result = ior_error; data_read = codes "ab"; later = [] }))
    × (read_all 4 (got (codes "ab") ∷ read_interrupted ∷ got [] ∷ [])
        ≡ some (record { result = ior_eof; data_read = codes "ab"; later = [] }))
read_all-Reading_example =
    read_all-Reading (got (codes "ab") ∷ read_interrupted ∷ []) [] b'c' (b'd' ∷ []) 5 refl

write_all-Writing_example :
    (write_all (codes "abcd") (wrote 1 ∷ write_interrupted ∷ wrote 3 ∷ [])
      ≡ some (record { result = ior_ok; data_written = codes "abcd"; later = [] }))
    × (write_all (codes "abcd") (wrote 1 ∷ write_interrupted ∷ write_failed 32 ∷ [])
        ≡ some (record { result = ior_error; data_written = codes "a"; later = [] }))
write_all-Writing_example =
    write_all-Writing (wrote 1 ∷ write_interrupted ∷ []) [] (codes "abcd") 32 refl (omega arith)

writev_all-write_all_example :
    writev_all (codes "ab" ∷ codes "cd" ∷ []) (wrote 3 ∷ wrote 1 ∷ [])
    ≡ write_all (codes "abcd") (wrote 3 ∷ wrote 1 ∷ [])
writev_all-write_all_example =
    writev_all-write_all (codes "ab" ∷ codes "cd" ∷ []) (wrote 3 ∷ wrote 1 ∷ []) (omega arith)

put_param-message_example :
    put_param net p_cmd (codes "ls") (wrote 5 ∷ wrote 7 ∷ [])
    ≡ some (0 ∷ 0 ∷ 0 ∷ 8 ∷ codes "cmd:ls" ++ 0o27 ∷ 0o27 ∷ [], true)
unfolding param_to_string
put_param-message_example =
    put_param-message net net-NetworkOrderLaws p_cmd (codes "ls") (wrote 5 ∷ []) [] 7 (omega arith)
      refl (omega arith) refl

get_param-message_example :
    get_param libs net [] (
      got (0 ∷ 0 ∷ [])
      ∷ got (0 ∷ 8 ∷ [])
      ∷ read_interrupted
      ∷ got (codes "cmd:ls" ++ 0o27 ∷ 0o27 ∷ [])
      ∷ [])
    ≡ some (received p_cmd (codes "ls"))
unfolding param_to_string
get_param-message_example =
    get_param-message libs libs-LibsLaws net net-NetworkOrderLaws p_cmd (codes "ls") [] refl refl
      (omega arith) (got (0 ∷ 0 ∷ []) ∷ []) (read_interrupted ∷ []) [] 0 b'c' (8 ∷ [])
      (codes "md:ls" ++ 0o27 ∷ 0o27 ∷ []) refl refl refl refl

string_to_param-param_to_string_example : string_to_param (param_to_string p_pwd) ≡ p_pwd
string_to_param-param_to_string_example = string_to_param-param_to_string p_pwd

connection_read-content_example :
    Gives
      (connection_read
        (reading (codes "ls") executing)
        no_actions
        (read_interrupted ∷ got (codes " -l") ∷ []))
      (codes "ls -l")
      no_actions
unfolding connection_init
connection_read-content_example =
    connection_read-content (reading (codes "ls") executing) no_actions 1 b' ' (codes "-l") []
      (omega arith)

-- Of `abcd`, `a` was written before.
abbrev rest_of : Connection
rest_of = record (reading (codes "abcd") executing) { skip = 1 }

connection_write-outgoing_example :
    connection_write rest_of (wrote 1 ∷ write_interrupted ∷ wrote 2 ∷ [])
    ≡ some (record { result = ior_ok; data_written = codes "bcd"; later = [] })
unfolding connection_init
connection_write-outgoing_example =
    connection_write-outgoing rest_of (wrote 1 ∷ write_interrupted ∷ []) [] refl (omega arith)
