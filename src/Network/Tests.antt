-- ===== src/Network/Tests.antt =====
-- src/modules/connectivity/network: packets, and the calls that ask once.
use artik_sdk.Prelude.{ℕ, ◌%◌, ◌<◌, ◌≡◌, refl, true, false, some, List, [], ◌∷◌, ◌++◌, arith, ltb}
use artik_sdk.Prelude.Int.{negsuc}
use artik_sdk.Prelude.Text.{Bytes, codes}
use artik_sdk.Error.{s_ok, is_ok}
use artik_sdk.Network.Checksum.{htons, chksum, word_sum, chksum_lem}
use artik_sdk.Network.Echo.{icmphdr, os_check_echo_response, os_check_echo_response_lem}
use artik_sdk.Network.Online.{
  packet, again, Round, artik_get_online_status, artik_get_online_status-IsSettled,
}
use artik_sdk.Network.PublicIp.{key, strstr}

-- An odd number of bytes.
abbrev bytes : List ℕ
bytes = 1 ∷ 2 ∷ 255 ∷ []

chksum_lem_example :
    (chksum bytes < 65536)
    × (htons (chksum bytes) % 65535 ≡ word_sum bytes % 65535)
    × (htons (chksum bytes) ≡ 0 → word_sum bytes ≡ 0)
chksum_lem_example = chksum_lem bytes (omega arith) (omega arith)

-- 20 bytes of header, of which the first is 0x45.
abbrev header : List ℕ
header = 0 ∷ 0 ∷ 28 ∷ 0 ∷ 0 ∷ 0 ∷ 0 ∷ 64 ∷ 1 ∷ 0 ∷ 0 ∷ 127 ∷ 0 ∷ 0 ∷ 1 ∷ 127 ∷ 0 ∷ 0 ∷ 1 ∷ []

abbrev reply : ℕ → ℕ → List ℕ
reply pid seqno = 69 ∷ header ++ (icmphdr 0 0 pid (htons seqno) ++ [])

os_check_echo_response_lem_example :
    os_check_echo_response 70000 (reply 70000 3) (negsuc 0) 3 ≡ some (ltb 70000 65536)
os_check_echo_response_lem_example =
    os_check_echo_response_lem 70000 3 69 0 (negsuc 0) header [] (omega arith) (omega arith)
      (omega arith) (omega arith)

-- Nothing comes in two rounds of 380 ms, each with a second of sleep behind it; then the answer.
abbrev rounds : List Round
rounds =
    (record { sent = true; received = again 1280 })
    ∷ (record { sent = true; received = again 2660 })
    ∷ (record { sent = true; received = packet (reply 7 0) 28 })
    ∷ []

online_in_the_third_round :
    artik_get_online_status true true 7 1900 true true 900 rounds ≡ some (s_ok, true, false)
unfolding artik_get_online_status os_check_echo_response
online_in_the_third_round = refl

artik_get_online_status-IsSettled_example : (is_ok s_ok ≡ true) × (false ≡ false)
artik_get_online_status-IsSettled_example =
    artik_get_online_status-IsSettled true true true true 7 1900 900 rounds s_ok true false
      online_in_the_third_round

abbrev before_key : Bytes
before_key = codes "{\"status\":\"success\","

key-first : strstr (before_key ++ key) key ≡ some key
unfolding strstr codes
key-first = refl
