-- ===== src/Returns/Words.antt =====
-- The words by which a failed delivery and a return are told in a scan.
use saas_frontend.Base.{Option, none, some, List, [], ◌∷◌, ◌++◌, if◌then◌else◌}
use saas_frontend.Base.Text.{Text, codes, to_lower_case, includes_any}
use saas_frontend.Status.Shipments
use saas_frontend.Status.Shipments.{
  ShipmentStatus, created, awb_generated, pickup_scheduled, picked_up, in_transit, out_for_delivery,
  delivered, cancelled,
}
use saas_frontend.Tracking.{ScanStatus, known, unknown}

-- `REASON_CODES`
pub data ReasonCode : Type 0 where
  customer_unavailable address_incorrect customer_refused cod_not_ready other_reason : ReasonCode

-- `RTO_STATUSES`
pub data RtoStatus : Type 0 where
  rto_initiated rto_in_transit rto_delivered rto_lost : RtoStatus

abbrev pub unavailable_words : List Text
unavailable_words =
    codes "unavailable"
    ∷ codes "unreachable"
    ∷ codes "not available"
    ∷ codes "door closed"
    ∷ codes "consignee absent"
    ∷ codes "not present"
    ∷ codes "could not reach"
    ∷ codes "no response"
    ∷ []

abbrev pub address_words : List Text
address_words =
    codes "incorrect address"
    ∷ codes "incomplete address"
    ∷ codes "wrong address"
    ∷ codes "address incorrect"
    ∷ codes "address issue"
    ∷ codes "bad address"
    ∷ codes "pincode wrong"
    ∷ codes "wrong pincode"
    ∷ []

abbrev pub refused_words : List Text
refused_words =
    codes "refused"
    ∷ codes "rejected"
    ∷ codes "customer refused"
    ∷ codes "consignee refused"
    ∷ codes "consignee rejected"
    ∷ codes "cancelled by customer"
    ∷ []

abbrev pub cod_words : List Text
cod_words =
    codes "cod amount not ready"
    ∷ codes "cash not ready"
    ∷ codes "money not ready"
    ∷ codes "cod not ready"
    ∷ codes "payment not ready"
    ∷ codes "amount not ready"
    ∷ []

abbrev pub failure_words : List Text
failure_words =
    codes "undelivered"
    ∷ codes "failed attempt"
    ∷ codes "delivery failed"
    ∷ codes "attempted"
    ∷ codes "failed"
    ∷ codes "could not deliver"
    ∷ codes "held"
    ∷ codes "delay"
    ∷ []

abbrev pub initiated_words : List Text
initiated_words =
    codes "rto initiated"
    ∷ codes "rto created"
    ∷ codes "return initiated"
    ∷ codes "return created"
    ∷ codes "undelivered return"
    ∷ []

abbrev pub in_transit_words : List Text
in_transit_words =
    codes "rto in transit"
    ∷ codes "rto transit"
    ∷ codes "return in transit"
    ∷ codes "return transit"
    ∷ codes "returning to origin"
    ∷ codes "sent back to origin"
    ∷ []

abbrev pub delivered_words : List Text
delivered_words =
    codes "rto delivered"
    ∷ codes "returned to origin"
    ∷ codes "returned back to merchant"
    ∷ codes "delivered to origin"
    ∷ codes "return delivered"
    ∷ []

abbrev pub lost_words : List Text
lost_words = codes "rto lost" ∷ codes "return lost" ∷ codes "lost in return" ∷ []

-- A status as the column holds it.
abbrev pub status_word : ShipmentStatus → Text
status_word created = codes "created"
status_word awb_generated = codes "awb_generated"
status_word pickup_scheduled = codes "pickup_scheduled"
status_word picked_up = codes "picked_up"
status_word in_transit = codes "in_transit"
status_word out_for_delivery = codes "out_for_delivery"
status_word delivered = codes "delivered"
status_word cancelled = codes "cancelled"
status_word Shipments.failed = codes "failed"

abbrev pub scan_word : ScanStatus → Text
scan_word (known status) = status_word status
scan_word (unknown word) = word

abbrev pub or_empty : Option Text → Text
or_empty none = []
or_empty (some s) = s

-- `${status || ''} ${remark || ''}` in lower case
abbrev pub scan_text : ScanStatus → Option Text → Text
scan_text status remark = to_lower_case (scan_word status ++ (codes " " ++ or_empty remark))

abbrev pub reason_of : Text → ReasonCode
reason_of text =
    if includes_any unavailable_words text
    then customer_unavailable
    else (if includes_any address_words text
        then address_incorrect
        else (if includes_any refused_words text
            then customer_refused
            else (if includes_any cod_words text then cod_not_ready else other_reason)))

-- `detectNdrReason`
unfoldable pub detect_ndr_reason : ScanStatus → Option Text → Option ReasonCode
unfolding includes_any to_lower_case
detect_ndr_reason status remark =
    let text = scan_text status remark in
    if includes_any failure_words text then some (reason_of text) else none

abbrev pub rto_status_of : Text → Option RtoStatus
rto_status_of text =
    if includes_any initiated_words text
    then some rto_initiated
    else (if includes_any in_transit_words text
        then some rto_in_transit
        else (if includes_any delivered_words text
            then some rto_delivered
            else (if includes_any lost_words text then some rto_lost else none)))

-- `detectRtoStatus`
unfoldable pub detect_rto_status : ScanStatus → Option Text → Option RtoStatus
unfolding includes_any to_lower_case
detect_rto_status status remark = rto_status_of (scan_text status remark)
