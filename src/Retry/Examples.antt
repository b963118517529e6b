-- ===== src/Retry/Examples.antt =====
-- The third attempt, with a server that asks for a second.
use fabric_workspace_fs.Prelude.{◌≡◌, refl, ◌≤◌, min, Option, none, some}
use fabric_workspace_fs.Prelude.Int.{ℤ}
use fabric_workspace_fs.Bytes.{Bytes, ascii}
use fabric_workspace_fs.Retry.{
  all_digits, decimal, backoff, retry_after, retry_wait, Obeys, retry_wait_lem,
}

abbrev no_trim : Bytes → Bytes
no_trim s = s

abbrev no_date : Bytes → Option ℤ
no_date s = none

waits : retry_wait no_trim no_date 250000000 30000000000 1 (ascii "1") ≡ some 1000000000
unfolding retry_wait retry_after all_digits decimal backoff
waits = refl

retry_wait_example :
    (min 250000000 30000000000 ≤ 1000000000)
    × (1000000000 ≤ 30000000000)
    × Obeys no_trim no_date (ascii "1") 1000000000
retry_wait_example =
    retry_wait_lem no_trim no_date 250000000 30000000000 1 1000000000 (ascii "1") waits
