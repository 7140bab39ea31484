-- ===== src/Command.antt =====
-- cmd/xns/main.go: the commands, behind the parsing of their flags.
pub mod Flags
use xns.Common.{
  ℕ, Bool, true, false, ◌||◌, List, [], ◌∷◌, Bytes, codes, same, Error, Result, ok, err, panic,
  stuck, check, ◌>>=◌, ◌>>◌, if◌then◌else◌, flag_required, one_name,
}
use xns.Messages.{message}
use xns.Claim
use xns.Indexer.Process
use xns.Lookup

unfoldable pub is_set : List Bytes → Bytes → Bool
is_set [] name = false
is_set (other ∷ others) name = same other name || is_set others name

-- `set` has the names of the flags that were given.
unfoldable pub require_flags : List Bytes → List Bytes → Result (Unit {0})
require_flags set [] = ok tt
require_flags set (name ∷ names) =
    let rest = require_flags set names in if is_set set name then rest else err (flag_required name)

abbrev pub claim_flags : List Bytes
claim_flags =
    codes "wallet-file"
    ∷ codes "wallet-password"
    ∷ codes "name"
    ∷ codes "owner"
    ∷ codes "node"
    ∷ codes "years"
    ∷ []

-- `parsed` is what `fs.Parse` makes of the arguments, `claim` is `claim.Run`.
unfoldable pub run_claim :
    {A : Type 0} → Result (Claim.Config × List Bytes) → (Claim.Config → Result A) → Result A
run_claim parsed claim = do
  (cfg, set) ← parsed
  require_flags set claim_flags
  claim (record cfg { wallet_password_set = true })

-- `fs.NArg() != 1`
abbrev pub only_argument : List Bytes → Result Bytes
only_argument (name ∷ []) = ok name
only_argument _ = err one_name

-- The indexer's URL, the flags that were given and the arguments behind them.
unfoldable pub run_lookup :
    {A : Type 0} → Result (Bytes × List Bytes × List Bytes) → (Lookup.Config → Result A) → Result A
run_lookup parsed lookup = do
  (indexer, set, arguments) ← parsed
  require_flags set (codes "indexer" ∷ [])
  name ← only_argument arguments
  lookup (record { indexer = indexer; name = name })

unfoldable pub run_indexer :
    {A : Type 0} → Result (Process.Config × List Bytes) → (Process.Config → Result A) → Result A
run_indexer parsed indexer = do
  (cfg, set) ← parsed
  require_flags set (codes "node" ∷ codes "listen" ∷ codes "data-dir" ∷ [])
  indexer cfg

-- How the process ends: status 0, status 1 with a text, status 2, or otherwise.
pub data Exit : Type 0 where
  success : Exit
  failure : Bytes → Exit
  usage_error : Exit
  crash : Exit

abbrev pub exit_of : Result (Unit {0}) → Exit
exit_of (ok u) = success
exit_of (err e) = failure (message e)
exit_of panic = crash
exit_of stuck = crash

-- The arguments behind the program's name, and the three commands on those behind their own.
unfoldable pub main :
    List Bytes
    → (List Bytes → Result (Unit {0}))
    → (List Bytes → Result (Unit {0}))
    → (List Bytes → Result (Unit {0}))
    → Exit
main [] claim lookup indexer = usage_error
main (command ∷ arguments) claim lookup indexer =
    if same command (codes "claim")
    then exit_of (claim arguments)
    else if same command (codes "lookup")
    then exit_of (lookup arguments)
    else if same command (codes "indexer")
    then exit_of (indexer arguments)
    else if same command (codes "-h")
        || same command (codes "--help")
        || same command (codes "help")
    then success
    else usage_error
