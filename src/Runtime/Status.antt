-- ===== src/Runtime/Status.antt =====
-- `StatusTracker` of crates/erc20_payment_lib/src/runtime.rs: the list of present problems, and
-- what is passed on of each driver event.
pub mod Issues
pub mod Board
use erc20_payment_lib.Prelude.{
  ℕ, String, List, [], ◌∷◌, ◌++◌, Option, none, some, Bool, true, false, not, ◌&&◌, ◌==◌, str_eq,
  if◌then◌else◌, length,
}
use erc20_payment_lib.Prelude.Int.{ℤ, pos, ◌-ℤ◌}
use erc20_payment_lib.Db.{delete_where}
use erc20_payment_lib.Events.{
  StatusProperty, cant_sign, no_gas, no_token, web3_rpc_error, tx_stuck, chain_id_of, address_of,
  DriverEventContent, transaction_stuck, gas_price_low, transfer_finished, web3_rpc_message,
  status_changed, Web3RpcPoolContent, success, error, all_endpoints_failed,
}

-- The `match` of one old property and the new one: what the old one becomes, and the answer
-- that `update` returns; nothing where the loop goes on.
unfoldable pub merge : StatusProperty → StatusProperty → Option (StatusProperty × Bool)
merge (cant_sign id1 addr1) (cant_sign id2 addr2) =
    if id1 == id2 && str_eq addr1 addr2 then some (cant_sign id1 addr1, false) else none
merge (StatusProperty.no_gas id1 addr1 old) (StatusProperty.no_gas id2 addr2 new) =
    if id1 == id2 && str_eq addr1 addr2
    then some (StatusProperty.no_gas id1 addr1 new, true)
    else none
merge (StatusProperty.no_token id1 addr1 old) (StatusProperty.no_token id2 addr2 new) =
    if id1 == id2 && str_eq addr1 addr2
    then some (StatusProperty.no_token id1 addr1 new, true)
    else none
merge (web3_rpc_error id1 err1) (web3_rpc_error id2 err2) =
    if id1 == id2 then some (web3_rpc_error id1 err2, true) else none
merge (tx_stuck id1) (tx_stuck id2) = if id1 == id2 then some (tx_stuck id1, false) else none
merge _ _ = none

unfoldable pub update : List StatusProperty → StatusProperty → List StatusProperty × Bool
update [] new = (new ∷ [], true)
update (old ∷ rest) new = elim (merge old new) [
  | some (kept, changed) ↦ (kept ∷ rest, changed)
  | none ↦ let (rest', changed) = update rest new in (old ∷ rest', changed)
]

abbrev pub chain_of : StatusProperty → ℕ
chain_of (cant_sign id addr) = id
chain_of (StatusProperty.no_gas id addr missing) = id
chain_of (StatusProperty.no_token id addr missing) = id
chain_of (web3_rpc_error id message) = id
chain_of (tx_stuck id) = id

unfoldable pub clear_issues : List StatusProperty → ℕ → List StatusProperty × Bool
clear_issues props ok_chain_id =
    let kept = delete_where (λ s. chain_of s == ok_chain_id) props in
    (kept, not (length kept == length props))

-- The arms of a `Web3RpcMessage`.
unfoldable pub handle_rpc :
    ℕ → Web3RpcPoolContent → List StatusProperty → List StatusProperty × Bool × Bool
handle_rpc chain_id success status = (status, false, false)
handle_rpc chain_id (error message) status =
    let (s, changed) = update status (web3_rpc_error chain_id message) in (s, changed, true)
handle_rpc chain_id all_endpoints_failed status =
    let (s, changed) = update status (web3_rpc_error chain_id "All endpoints failed") in
    (s, changed, true)

-- The list after one event, whether it counts as changed, and whether the event is passed on.
unfoldable pub handle_event :
    DriverEventContent → List StatusProperty → List StatusProperty × Bool × Bool
unfolding handle_rpc
handle_event (DriverEventContent.cant_sign details) status =
    let (s, changed) =
      update status (StatusProperty.cant_sign (chain_id_of details) (address_of details)) in
    (s, changed, true)
handle_event (transaction_stuck (no_gas d)) status =
    let missing = pos d.gas_needed -ℤ pos d.gas_balance in
    let (s, changed) = update status (StatusProperty.no_gas d.tx.chain_id d.tx.from_addr missing) in
    (s, changed, true)
handle_event (transaction_stuck (no_token d)) status =
    let missing = pos d.token_balance -ℤ pos d.token_needed in
    let (s, changed) =
      update status (StatusProperty.no_token d.tx.chain_id d.tx.from_addr missing) in
    (s, changed, true)
handle_event (transaction_stuck (gas_price_low d)) status =
    let (s, changed) = update status (tx_stuck d.tx.chain_id) in (s, changed, true)
handle_event (transfer_finished info) status =
    let (s, changed) = clear_issues status info.token_transfer_dao.chain_id in (s, changed, true)
handle_event (web3_rpc_message info) status = handle_rpc info.chain_id info.content status
handle_event _ status = (status, false, true)

-- The loop of `StatusTracker::new`: what is sent on, and the list at the end.
unfoldable pub track :
    List DriverEventContent → List StatusProperty → List DriverEventContent × List StatusProperty
unfolding handle_event
track [] status = ([], status)
track (ev ∷ evs) status =
    let (s, changed, pass) = handle_event ev status in
    let (sent, final) = track evs s in
    ((if pass then ev ∷ (if changed then status_changed s ∷ [] else []) else []) ++ sent, final)
