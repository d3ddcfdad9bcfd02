-- ===== src/Tests/Runtime.antt =====
-- The theorem on the status list at a concrete list.
use erc20_payment_lib.Prelude.{◌≡◌, refl, List, [], ◌∷◌}
use erc20_payment_lib.Events.{
  tx_stuck, web3_rpc_error, DriverEventContent, web3_rpc_message, all_endpoints_failed, alive,
}
use erc20_payment_lib.Runtime.Status.{track}
use erc20_payment_lib.Runtime.Status.Board.{
  effect, apply_all, IsDistinct, track_refines, track-IsDistinct,
}
use erc20_payment_lib.Runtime.Status.Issues.{lookup}
use erc20_payment_lib.Prelude.{map}

abbrev events : List DriverEventContent
events = web3_rpc_message (record { chain_id = 5; content = all_endpoints_failed }) ∷ alive ∷ []

track_refines_example :
    lookup (track events (tx_stuck 5 ∷ [])).1
    ≡ apply_all (map effect events) (lookup (tx_stuck 5 ∷ []))
track_refines_example = track_refines events (tx_stuck 5 ∷ [])

track-IsDistinct_example : IsDistinct (track events (tx_stuck 5 ∷ web3_rpc_error 5 "" ∷ [])).1
track-IsDistinct_example =
    track-IsDistinct events (tx_stuck 5 ∷ web3_rpc_error 5 "" ∷ []) ((refl, tt), (tt, tt))
