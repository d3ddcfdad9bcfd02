-- ===== src/Sender/Settle/Routing.antt =====
-- Which handler a processed transaction goes to, by the method that it was created with.
use erc20_payment_lib.Prelude.{
  ℕ, String, ◌≡◌, refl, sym, subst, inl, inr, true, false, Bool-cases, Option, none, some, ok,
  str_eq, ◌⊎◌, >>=-eq-ok,
}
use erc20_payment_lib.Text.{Codec}
use erc20_payment_lib.Db.{Db, TxDbObj, update_tx}
use erc20_payment_lib.Transaction.{
  Env, with_call, SingleTransferDepositArgs, MultiTransferDepositArgs, MultiTransferArgs,
  create_erc20_transfer, create_eth_transfer, create_erc20_transfer_multi,
  create_erc20_deposit_transfer, create_erc20_transfer_multi_deposit, multi_call,
}
use erc20_payment_lib.Multi.{pack_transfers_for_multi_contract}
use erc20_payment_lib.Sender.Settle.{
  Settled, ProcessTransactionResult, confirmed, need_retry, internal_error, unknown,
  is_token_transfer_method, update_result, update_token_transfer_result, update_tx_result,
}

-- Neither a transfer nor an approval to `process_transactions`.
abbrev pub IsPlain : String → Type 0
IsPlain m = (is_token_transfer_method m ≡ false) × (str_eq m "ERC20.approve" ≡ false)

with_call-method :
    {A : Type 0} (P : A → Type 0) (o : Option String) (row : String → A) {x : A}
    → with_call o row ≡ ok x
    → ((call : String) → P (row call))
    → P x
with_call-method P none row h keep = cc
with_call-method P (some call) row {x} h keep = subst P (cc) (keep call)

IsPlain-single : IsPlain "LOCK.depositSingleTransfer"
unfolding is_token_transfer_method
IsPlain-single = (refl, refl)

IsPlain-single_close : IsPlain "LOCK.depositSingleTransferAndClose"
unfolding is_token_transfer_method
IsPlain-single_close = (refl, refl)

IsPlain-multi : IsPlain "LOCK.depositTransfer"
unfolding is_token_transfer_method
IsPlain-multi = (refl, refl)

IsPlain-multi_close : IsPlain "LOCK.depositTransferAndClose"
unfolding is_token_transfer_method
IsPlain-multi_close = (refl, refl)

create_erc20_deposit_transfer-IsPlain :
    (env : Env) (a : SingleTransferDepositArgs) {tx : TxDbObj}
    → create_erc20_deposit_transfer env a ≡ ok tx
    → IsPlain tx.method
unfolding create_erc20_deposit_transfer
create_erc20_deposit_transfer-IsPlain env a h = elim (Bool-cases a.deposit_finish) [
  | inl e ↦ with_call-method (λ t. IsPlain t.method) _ _ (rw e at h) (λ call. IsPlain-single_close)
  | inr e ↦ with_call-method (λ t. IsPlain t.method) _ _ (rw e at h) (λ call. IsPlain-single)
]

create_erc20_transfer_multi_deposit-IsPlain :
    (env : Env) (a : MultiTransferDepositArgs) {tx : TxDbObj}
    → create_erc20_transfer_multi_deposit env a ≡ ok tx
    → IsPlain tx.method
unfolding create_erc20_transfer_multi_deposit
create_erc20_transfer_multi_deposit-IsPlain env a h =
    let (packed, _, h') =
      >>=-eq-ok (pack_transfers_for_multi_contract a.erc20_to a.erc20_amount) _ h in
    elim (Bool-cases a.deposit_finish) [
      | inl e ↦
          with_call-method (λ t. IsPlain t.method) _ _ (rw e at h') (λ call. IsPlain-multi_close)
      | inr e ↦ with_call-method (λ t. IsPlain t.method) _ _ (rw e at h') (λ call. IsPlain-multi)
    ]

update_tx_result-transfers :
    (tx : TxDbObj) (db : Db) (res : ProcessTransactionResult)
    → (update_tx_result tx db res).db.token_transfers ≡ db.token_transfers
unfolding update_tx_result update_tx
update_tx_result-transfers tx db confirmed = refl
update_tx_result-transfers tx db (need_retry m) = refl
update_tx_result-transfers tx db (internal_error m) = refl
update_tx_result-transfers tx db unknown = refl
update_tx_result-transfers tx db _ = refl

plain_result :
    (c : Codec) (now : ℕ) (tx : TxDbObj) (db : Db) (res : ProcessTransactionResult)
    → IsPlain tx.method
    → update_result c now tx db res ≡ ok (update_tx_result tx db res)
unfolding update_result
plain_result c now tx db res h = rw (h.0, h.1)

-- Let a payment from a deposit be created, by a single or by a multi transfer. Whatever comes of
-- a transaction with its method, its confirmation included, storing the result succeeds and
-- leaves every token transfer as it was.
pub deposit_payment_stays_unpaid :
    (env : Env) (single : SingleTransferDepositArgs) (multi : MultiTransferDepositArgs)
    (created tx : TxDbObj) (now : ℕ) (db : Db) (res : ProcessTransactionResult)
    → (create_erc20_deposit_transfer env single ≡ ok created)
      ⊎ (create_erc20_transfer_multi_deposit env multi ≡ ok created)
    → tx.method ≡ created.method
    → (s : Settled) × (update_result env.codec now tx db res ≡ ok s)
      × (s.db.token_transfers ≡ db.token_transfers)
deposit_payment_stays_unpaid env single multi created tx now db res h e =
    let plain : IsPlain created.method = elim h [
      | inl one ↦ create_erc20_deposit_transfer-IsPlain env single one
      | inr many ↦ create_erc20_transfer_multi_deposit-IsPlain env multi many
    ] in
    (
      update_tx_result tx db res,
      plain_result env.codec now tx db res (subst IsPlain (sym e) plain),
      update_tx_result-transfers tx db res,
    )

abbrev IsTransfer : String → Type 0
IsTransfer m = is_token_transfer_method m ≡ true

IsTransfer-direct : IsTransfer "MULTI.golemTransferDirect"
unfolding is_token_transfer_method
IsTransfer-direct = refl

IsTransfer-indirect : IsTransfer "MULTI.golemTransferIndirect"
unfolding is_token_transfer_method
IsTransfer-indirect = refl

IsTransfer-direct_packed : IsTransfer "MULTI.golemTransferDirectPacked"
unfolding is_token_transfer_method
IsTransfer-direct_packed = refl

IsTransfer-indirect_packed : IsTransfer "MULTI.golemTransferIndirectPacked"
unfolding is_token_transfer_method
IsTransfer-indirect_packed = refl

IsTransfer-erc20 : IsTransfer "ERC20.transfer"
unfolding is_token_transfer_method
IsTransfer-erc20 = refl

IsTransfer-eth : IsTransfer "transfer"
unfolding is_token_transfer_method
IsTransfer-eth = refl

multi_call-unpacked :
    (env : Env) (a : MultiTransferArgs) {r : String × String}
    → a.unpacked ≡ true
    → multi_call env a ≡ ok r
    → IsTransfer r.1
unfolding multi_call
multi_call-unpacked env a u h = elim (Bool-cases a.direct) [
  | inl d ↦ with_call-method (λ r. IsTransfer r.1) _ _ (rw (u, d) at h) (λ call. IsTransfer-direct)
  | inr d ↦
      with_call-method (λ r. IsTransfer r.1) _ _ (rw (u, d) at h) (λ call. IsTransfer-indirect)
]

multi_call-packed :
    (env : Env) (a : MultiTransferArgs) {r : String × String}
    → a.unpacked ≡ false
    → multi_call env a ≡ ok r
    → IsTransfer r.1
unfolding multi_call
multi_call-packed env a u h =
    let (packed, _, h') =
      >>=-eq-ok (pack_transfers_for_multi_contract a.erc20_to a.erc20_amount) _ (rw u at h) in
    elim (Bool-cases a.direct) [
      | inl d ↦
          with_call-method (λ r. IsTransfer r.1) _ _ (rw d at h') (λ call. IsTransfer-direct_packed)
      | inr d ↦
          with_call-method (λ r. IsTransfer r.1) _ _ (rw d at h')
            (λ call. IsTransfer-indirect_packed)
    ]

multi-IsTransfer :
    (env : Env) (a : MultiTransferArgs) {tx : TxDbObj}
    → create_erc20_transfer_multi env a ≡ ok tx
    → IsTransfer tx.method
unfolding create_erc20_transfer_multi
multi-IsTransfer env a {tx} h =
    let (r, called, h') = >>=-eq-ok (multi_call env a) _ h in
    let is_transfer : IsTransfer r.1 = elim (Bool-cases a.unpacked) [
      | inl u ↦ multi_call-unpacked env a u called
      | inr u ↦ multi_call-packed env a u called
    ] in
    let same : r.1 ≡ tx.method = cc in subst IsTransfer same is_transfer

-- Let a payment that no deposit covers be created, of the gas currency, of one token transfer or
-- of several. A transaction with its method is handled as a token transfer, whatever comes of it.
pub payment_is_settled :
    (env : Env) (from to token amount chain : ℕ) (gas : Option ℕ) (multi : MultiTransferArgs)
    (created tx : TxDbObj) (now : ℕ) (db : Db) (res : ProcessTransactionResult)
    → (create_eth_transfer env from to chain gas amount ≡ created)
      ⊎ (create_erc20_transfer env from token to amount chain gas ≡ ok created)
      ⊎ (create_erc20_transfer_multi env multi ≡ ok created)
    → tx.method ≡ created.method
    → update_result env.codec now tx db res ≡ update_token_transfer_result env.codec now tx db res
unfolding update_result create_eth_transfer create_erc20_transfer
payment_is_settled env from to token amount chain gas multi created tx now db res h e =
    let is_transfer : IsTransfer created.method = elim h [
      | inl eth ↦ subst (λ t. IsTransfer t.method) eth IsTransfer-eth
      | inr (inl one) ↦
          with_call-method (λ t. IsTransfer t.method) _ _ one (λ call. IsTransfer-erc20)
      | inr (inr many) ↦ multi-IsTransfer env multi many
    ] in
    let here : is_token_transfer_method tx.method ≡ true = subst IsTransfer (sym e) is_transfer in
    rw here
