-- ===== src/Alpaca/Mapper.antt =====
-- internal/alpaca/mapper.go: the status that a broker event stands for.
use outbound_api.Prelude.{◌||◌, Option, none, some, String, str_eq, if◌then◌else◌}
use outbound_api.Model.{Status}

unfoldable pub map_alpaca_event_to_status : String → Option Status
map_alpaca_event_to_status event =
    if str_eq event "new" || str_eq event "accepted_for_bidding"
    then some Status.pending
    else if str_eq event "partial_fill"
    then some Status.open_order
    else if str_eq event "fill"
    then some Status.filled
    else if str_eq event "rejected" || str_eq event "order_canceled_rejected"
    then some Status.rejected
    else if str_eq event "canceled" || str_eq event "expired" || str_eq event "done_for_day"
    then some Status.cancelled
    else none
