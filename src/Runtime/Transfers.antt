-- ===== src/Runtime/Transfers.antt =====
-- `transfer_guess_account` and `transfer_with_account` of crates/erc20_payment_lib/src/runtime.rs:
-- a payment enters the queue, and may bring the next gathering forward.
use erc20_payment_lib.Prelude.{
  ℕ, String, List, [], ◌∷◌, Bool, true, false, not, Option, none, some, ◌==◌, min, if◌then◌else◌,
  ok, ◌>>=◌, ok_or,
}
use erc20_payment_lib.Error.{Result, custom_error}
use erc20_payment_lib.Db.{Db, insert_token_transfer_with_deposit_check}
use erc20_payment_lib.Transaction.{Env, create_token_transfer}

pub data TransferType : Type 0 where
  token gas : TransferType

pub record TransferArgs : Type 0 where
  pub network : String
  pub from : ℕ
  pub receiver : ℕ
  pub tx_type : TransferType
  pub amount : ℕ
  pub payment_id : String
  pub deadline : Option ℕ
  pub deposit_id : Option String

-- Of a chain of the configuration: its id and its token.
pub record ChainConfig : Type 0 where
  pub chain_id : ℕ
  pub token_address : ℕ

-- `SignerAccount`, of crates/erc20_payment_lib/src/signer/account.rs, less the signer.
pub record Account : Type 0 where
  pub address : ℕ
  pub external_gather_time : Option ℕ

-- What a call leaves: the account, and whether the service loop is woken.
pub record Queued : Type 0 where
  pub db : Db
  pub account : Account
  pub woken : Bool

abbrev pub token_of : ChainConfig → TransferType → Option ℕ
token_of chain token = some chain.token_address
token_of chain gas = none

-- The earlier of the two times, and whether it is new: `Some(new_time) != *ext_gath_time_guard`.
unfoldable pub earlier : Option ℕ → ℕ → ℕ × Bool
earlier none deadline = (deadline, true)
earlier (some time) deadline = (min time deadline, not (min time deadline == time))

unfoldable pub bring_forward : Bool → Option ℕ → Account → Account × Bool
unfolding earlier
bring_forward ignore_deadlines none account = (account, false)
bring_forward ignore_deadlines (some deadline) account =
    if ignore_deadlines
    then (account, false)
    else (let (time, is_new) = earlier account.external_gather_time deadline in
        (record account { external_gather_time = some time }, is_new))

module _ (env : Env) (chains : String → Option ChainConfig) (ignore_deadlines : Bool) where
  unfoldable pub transfer_with_account : Account → TransferArgs → Db → Result Queued
  unfolding bring_forward
  transfer_with_account account args db =
      ok_or (chains args.network) (custom_error "Chain not found in config file") >>= λ chain_cfg.
      insert_token_transfer_with_deposit_check env.now
        (create_token_transfer env args.from args.receiver chain_cfg.chain_id (some args.payment_id)
          (token_of chain_cfg args.tx_type) args.amount args.deposit_id)
        db
      >>= λ (db', row).
          let (account', woken) = bring_forward ignore_deadlines args.deadline account in
          ok (record { db = db'; account = account'; woken = woken })

  abbrev pub find_account : List Account → ℕ → Option Account
  find_account [] address = none
  find_account (a ∷ accounts) address =
      if a.address == address then some a else find_account accounts address

  unfoldable pub transfer_guess_account : List Account → TransferArgs → Db → Result Queued
  unfolding transfer_with_account
  transfer_guess_account accounts args db =
      ok_or (find_account accounts args.from) (custom_error "Account not found in active accounts")
      >>= λ account. transfer_with_account account args db
