-- ===== src/Contracts.antt =====
-- Call data of the contracts: crates/erc20_payment_lib/src/contracts.rs. The encoder itself is the
-- `ethabi` crate's, over the ABI files of crates/erc20_payment_lib/contracts: it is the parameter
-- `Abi`, which answers in hexadecimal (`hex::encode`), or fails as `ethabi` does.
use erc20_payment_lib.Prelude.{ℕ, String, List, [], ◌∷◌, Option}

pub data Template : Type 0 where
  faucet erc20 erc20_multi lock : Template

pub data Token : Type 0 where
  address : ℕ → Token
  uint : ℕ → Token
  int : ℕ → Token
  addresses : List ℕ → Token
  uints : List ℕ → Token
  packed : List (List ℕ) → Token

abbrev pub Abi : Type 0
Abi = Template → String → List Token → Option String

pub record CreateDepositArgs : Type 0 where
  pub deposit_nonce : ℕ
  pub deposit_spender : ℕ
  pub deposit_amount : ℕ
  pub deposit_fee_amount : ℕ
  pub deposit_fee_percent : ℕ
  pub deposit_timestamp : ℕ

module _ (contract_encode : Abi) where
  unfoldable pub encode_erc20_transfer : ℕ → ℕ → Option String
  encode_erc20_transfer to amount = contract_encode erc20 "transfer" (address to ∷ uint amount ∷ [])

  unfoldable pub encode_erc20_allowance : ℕ → ℕ → Option String
  encode_erc20_allowance owner spender =
      contract_encode erc20 "allowance" (address owner ∷ address spender ∷ [])

  unfoldable pub encode_faucet_create : Option String
  encode_faucet_create = contract_encode faucet "create" []

  unfoldable pub encode_erc20_approve : ℕ → ℕ → Option String
  encode_erc20_approve spender amount =
      contract_encode erc20 "approve" (address spender ∷ uint amount ∷ [])

  unfoldable pub encode_deposit_transfer : ℕ → List (List ℕ) → Option String
  encode_deposit_transfer deposit_id transfers =
      contract_encode lock "depositTransfer" (uint deposit_id ∷ packed transfers ∷ [])

  unfoldable pub encode_deposit_transfer_and_close : ℕ → List (List ℕ) → Option String
  encode_deposit_transfer_and_close deposit_id transfers =
      contract_encode lock "depositTransferAndClose" (uint deposit_id ∷ packed transfers ∷ [])

  unfoldable pub encode_multi_direct : List ℕ → List ℕ → Option String
  encode_multi_direct recipients amounts =
      contract_encode erc20_multi "golemTransferDirect" (addresses recipients ∷ uints amounts ∷ [])

  unfoldable pub encode_multi_direct_packed : List (List ℕ) → Option String
  encode_multi_direct_packed transfers =
      contract_encode erc20_multi "golemTransferDirectPacked" (packed transfers ∷ [])

  unfoldable pub encode_multi_indirect : List ℕ → List ℕ → Option String
  encode_multi_indirect recipients amounts =
      contract_encode erc20_multi "golemTransferIndirect"
        (addresses recipients ∷ uints amounts ∷ [])

  unfoldable pub encode_multi_indirect_packed : List (List ℕ) → ℕ → Option String
  encode_multi_indirect_packed transfers sum =
      contract_encode erc20_multi "golemTransferIndirectPacked" (packed transfers ∷ uint sum ∷ [])

  unfoldable pub encode_close_deposit : ℕ → Option String
  encode_close_deposit deposit_id = contract_encode lock "closeDeposit" (uint deposit_id ∷ [])

  unfoldable pub encode_terminate_deposit : ℕ → Option String
  encode_terminate_deposit nonce = contract_encode lock "terminateDeposit" (uint nonce ∷ [])

  unfoldable pub encode_create_deposit : CreateDepositArgs → Option String
  encode_create_deposit args = contract_encode lock "createDeposit" (
      uint args.deposit_nonce
      ∷ address args.deposit_spender
      ∷ uint args.deposit_amount
      ∷ uint args.deposit_fee_amount
      ∷ int args.deposit_fee_percent
      ∷ uint args.deposit_timestamp
      ∷ [])

  unfoldable pub encode_payout_single : ℕ → ℕ → ℕ → Option String
  encode_payout_single deposit_id recipient amount =
      contract_encode lock "depositSingleTransfer"
        (uint deposit_id ∷ address recipient ∷ uint amount ∷ [])

  unfoldable pub encode_payout_single_and_close : ℕ → ℕ → ℕ → Option String
  encode_payout_single_and_close deposit_id recipient amount =
      contract_encode lock "depositSingleTransferAndClose"
        (uint deposit_id ∷ address recipient ∷ uint amount ∷ [])
