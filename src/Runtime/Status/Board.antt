-- ===== src/Runtime/Status/Board.antt =====
-- The tracker against its specification: a board with a place for each problem.
use erc20_payment_lib.Prelude.{
  ℕ, ◌≡◌, refl, ap, sym, subst, ◌∙◌, inl, inr, List, [], ◌∷◌, map, Option, none, some, Bool, true,
  false, ◌==◌, Bool-cases, if◌then◌else◌, All, arith,
}
use erc20_payment_lib.Prelude.Int.{pos, ◌-ℤ◌}
use erc20_payment_lib.Db.{select, delete_where}
use erc20_payment_lib.Events.{
  StatusProperty, no_gas, no_token, web3_rpc_error, tx_stuck, chain_id_of, address_of,
  DriverEventContent, transaction_stuck, gas_price_low, transfer_finished, web3_rpc_message,
  Web3RpcPoolContent, success, error, all_endpoints_failed, rpc_endpoint_problems,
}
use erc20_payment_lib.Runtime.Status.{
  update, chain_of, clear_issues, handle_rpc, handle_event, track,
}
use erc20_payment_lib.Runtime.Status.Issues.{
  same_issue, lookup, lookup-update, lookup-clear_issues, update-cons, same_issue-replace_left,
}

-- What an event says of the problems.
pub data Effect : Type 0 where
  report : StatusProperty → Effect
  resolved : ℕ → Effect
  nothing : Effect

abbrev pub rpc_effect : ℕ → Web3RpcPoolContent → Effect
rpc_effect c success = nothing
rpc_effect c (error message) = report (web3_rpc_error c message)
rpc_effect c all_endpoints_failed = report (web3_rpc_error c "All endpoints failed")

abbrev pub effect : DriverEventContent → Effect
effect (DriverEventContent.cant_sign d) =
    report (StatusProperty.cant_sign (chain_id_of d) (address_of d))
effect (transaction_stuck (no_gas d)) =
    report
      (StatusProperty.no_gas d.tx.chain_id d.tx.from_addr (pos d.gas_needed -ℤ pos d.gas_balance))
effect (transaction_stuck (no_token d)) = report (
    StatusProperty.no_token d.tx.chain_id d.tx.from_addr
      (pos d.token_balance -ℤ pos d.token_needed))
effect (transaction_stuck (gas_price_low d)) = report (tx_stuck d.tx.chain_id)
effect (transfer_finished info) = resolved info.token_transfer_dao.chain_id
effect (web3_rpc_message info) = rpc_effect info.chain_id info.content
effect _ = nothing

-- A board answers, for any property, with the present report on the same problem.
abbrev pub Board : Type 0
Board = StatusProperty → Option StatusProperty

abbrev pub apply : Effect → Board → Board
apply (report p) board q = if same_issue q p then some p else board q
apply (resolved c) board q = if chain_of q == c then none else board q
apply nothing board q = board q

abbrev pub apply_all : List Effect → Board → Board
apply_all [] board = board
apply_all (e ∷ es) board = apply_all es (apply e board)

rpc_lem :
    (c : ℕ) (content : Web3RpcPoolContent) (status : List StatusProperty) (q : StatusProperty)
    → lookup (handle_rpc c content status).0 q ≡ apply (rpc_effect c content) (lookup status) q
unfolding handle_rpc
rpc_lem c success status q = refl
rpc_lem c (error message) status q = lookup-update status _ q
rpc_lem c all_endpoints_failed status q = lookup-update status _ q

step_lem :
    (ev : DriverEventContent) (status : List StatusProperty) (q : StatusProperty)
    → lookup (handle_event ev status).0 q ≡ apply (effect ev) (lookup status) q
unfolding handle_event
step_lem (DriverEventContent.cant_sign d) status q = lookup-update status _ q
step_lem (transaction_stuck (no_gas d)) status q = lookup-update status _ q
step_lem (transaction_stuck (no_token d)) status q = lookup-update status _ q
step_lem (transaction_stuck (gas_price_low d)) status q = lookup-update status _ q
step_lem (transaction_stuck (rpc_endpoint_problems d)) status q = refl
step_lem (transfer_finished info) status q =
    lookup-clear_issues status info.token_transfer_dao.chain_id q
step_lem (web3_rpc_message info) status q = rpc_lem info.chain_id info.content status q
step_lem _ status q = refl

-- After any events, the list of the tracker answers like the board on which every report has
-- replaced the earlier one on the same problem, and every finished transfer has removed the
-- problems of its chain.
pub track_refines :
    (evs : List DriverEventContent) (status : List StatusProperty)
    → lookup (track evs status).1 ≡ apply_all (map effect evs) (lookup status)
unfolding track
track_refines [] status = refl
track_refines (ev ∷ evs) status =
    track_refines evs (handle_event ev status).0
    ∙ ap (apply_all (map effect evs)) (λ i q. step_lem ev status q i)

-- No two entries of the list are about the same problem.
abbrev pub IsDistinct : List StatusProperty → Type 0
IsDistinct [] = Unit {0}
IsDistinct (p ∷ props) = All (λ q. same_issue p q ≡ false) props × IsDistinct props

All-update :
    (P : StatusProperty → Type 0) (props : List StatusProperty) (p : StatusProperty)
    → P p
    → All P props
    → All P (update props p).0
unfolding update
All-update P [] p h hs = (h, tt)
All-update P (o ∷ props) p h hs =
    subst (λ u. All P u.0) (sym (update-cons o p props))
      (elim (Bool-cases (same_issue o p)) [
        | inl e ↦ rw e (h, hs.1)
        | inr e ↦ rw e (hs.0, All-update P props p h hs.1)
      ])

All-replace :
    (o p : StatusProperty) (props : List StatusProperty)
    → same_issue o p ≡ true
    → All (λ q. same_issue o q ≡ false) props
    → All (λ q. same_issue p q ≡ false) props
All-replace o p [] e h = tt
All-replace o p (q ∷ props) e h =
    (same_issue-replace_left o p q e ∙ h.0, All-replace o p props e h.1)

update-IsDistinct :
    (props : List StatusProperty) (p : StatusProperty)
    → IsDistinct props
    → IsDistinct (update props p).0
unfolding update
update-IsDistinct [] p h = (tt, tt)
update-IsDistinct (o ∷ props) p h =
    subst (λ u. IsDistinct u.0) (sym (update-cons o p props))
      (elim (Bool-cases (same_issue o p)) [
        | inl e ↦ rw e (All-replace o p props e h.0, h.1)
        | inr e ↦
            rw e (
              All-update (λ q. same_issue o q ≡ false) props p e h.0,
              update-IsDistinct props p h.1,
            )
      ])

All-delete :
    (P : StatusProperty → Type 0) (f : StatusProperty → Bool) (props : List StatusProperty)
    → All P props
    → All P (delete_where f props)
unfolding delete_where select
All-delete P f [] h = tt
All-delete P f (o ∷ props) h = ground (arith, All-delete P f props)

delete-IsDistinct :
    (f : StatusProperty → Bool) (props : List StatusProperty)
    → IsDistinct props
    → IsDistinct (delete_where f props)
unfolding delete_where select
delete-IsDistinct f [] h = tt
delete-IsDistinct f (o ∷ props) h = elim (Bool-cases (f o)) [
  | inl e ↦ rw e (delete-IsDistinct f props h.1)
  | inr e ↦ rw e (All-delete _ f props h.0, delete-IsDistinct f props h.1)
]

clear_issues-IsDistinct :
    (props : List StatusProperty) (c : ℕ) → IsDistinct props → IsDistinct (clear_issues props c).0
unfolding clear_issues
clear_issues-IsDistinct props c h = delete-IsDistinct _ props h

rpc-IsDistinct :
    (c : ℕ) (content : Web3RpcPoolContent) (status : List StatusProperty)
    → IsDistinct status
    → IsDistinct (handle_rpc c content status).0
unfolding handle_rpc
rpc-IsDistinct c success status h = h
rpc-IsDistinct c (error message) status h = update-IsDistinct status _ h
rpc-IsDistinct c all_endpoints_failed status h = update-IsDistinct status _ h

event-IsDistinct :
    (ev : DriverEventContent) (status : List StatusProperty)
    → IsDistinct status
    → IsDistinct (handle_event ev status).0
unfolding handle_event
event-IsDistinct (DriverEventContent.cant_sign d) status h = update-IsDistinct status _ h
event-IsDistinct (transaction_stuck (no_gas d)) status h = update-IsDistinct status _ h
event-IsDistinct (transaction_stuck (no_token d)) status h = update-IsDistinct status _ h
event-IsDistinct (transaction_stuck (gas_price_low d)) status h = update-IsDistinct status _ h
event-IsDistinct (transaction_stuck (rpc_endpoint_problems d)) status h = h
event-IsDistinct (transfer_finished info) status h = clear_issues-IsDistinct status _ h
event-IsDistinct (web3_rpc_message info) status h =
    rpc-IsDistinct info.chain_id info.content status h
event-IsDistinct _ status h = h

-- Whatever events arrive, a list with at most one entry for each problem stays such a list.
pub track-IsDistinct :
    (evs : List DriverEventContent) (status : List StatusProperty)
    → IsDistinct status
    → IsDistinct (track evs status).1
unfolding track
track-IsDistinct [] status h = h
track-IsDistinct (ev ∷ evs) status h =
    track-IsDistinct evs (handle_event ev status).0 (event-IsDistinct ev status h)
