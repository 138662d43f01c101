-- ===== src/Lib.antt =====
-- The core of the courier aggregator's back end (backend/src): a tenant has a wallet, a
-- subscription plan and orders; it books a shipment for an order with a courier at a quoted rate,
-- which takes the rate from the wallet, issues an invoice and counts against the plan; it may
-- cancel the shipment before pickup, which puts the rate back and issues a credit note.
--
-- Parts, and the code that each models:
--   Wallet      backend/src/services/wallet.service.js: credit, debit, check_balance_for_shipment,
--               reconcile_wallet_balance, over the rows of backend/src/models/wallet.model.js and
--               backend/src/models/walletTransaction.model.js.
--   Status      backend/src/services/shipmentStatus.service.js and
--               backend/src/services/orderStatus.service.js: the two tables of transitions
--               (valid_transitions) and the checks against them (validate_transition).
--   Billing     Tax: calculate_tax of backend/src/services/taxCalculation.service.js. Numbering:
--               generate_next_number of backend/src/services/invoiceNumbering.service.js.
--               Documents: create_shipment_invoice of backend/src/services/invoice.service.js and
--               create_cancellation_credit_note of backend/src/services/creditNote.service.js.
--   Plan        backend/src/services/planEnforcement.service.js: check_limit and increment_usage.
--   Settings    backend/src/services/settings.service.js over
--               backend/src/repositories/settings.repository.js: get_effective_setting with its
--               cache, update_tenant_settings, update_platform_setting. The parsers and the numbers
--               of the environment are the record Environment of Settings/Defs.antt.
--   Shipping    backend/src/services/shipment.service.js: create_shipment and cancel_shipment,
--               composed of the parts above the way the service calls them.
--   Recharge    backend/src/services/recharge.service.js: initiate_recharge,
--               verify_recharge_payment, handle_gateway_webhook, over
--               backend/src/models/rechargeOrder.model.js. The steps settle and mark_failed of a
--               verification stand alone too, as other calls can come between them.
--   Remittance  backend/src/services/codRemittance.service.js: create_batch and process_batch;
--               carry_out is the part of the latter that follows the read of the row.
--   Dispute     backend/src/services/weightDispute.service.js: file_dispute and resolve_dispute,
--               over the columns of backend/src/models/weightDiscrepancyDispute.model.js.
--   Tokens      backend/src/services/token.service.js over
--               backend/src/repositories/refreshToken.repository.js: generate_refresh_token,
--               rotate_refresh_token, rotate_platform_refresh_token, revoke_refresh_token. The hash
--               of a token is the parameter sha256.
--   Tracking    backend/src/services/tracking.service.js: ingest_tracking_events,
--               flag_stuck_shipments, shipment_ids_for_polling, over
--               backend/src/models/trackingEvent.model.js.
--   Rates       backend/src/services/rateComparison.service.js (Comparing) and
--               backend/src/services/carrierMarginConfig.service.js (Margins, Configs):
--               compare_rates, resolve_margin, with_margin, create_config; First and Chosen say
--               which margin applies. The quotes that it stores are those that Shipping reads. What
--               comes of asking a courier is the record Market of Rates/Comparing.antt.
--   Returns     backend/src/services/ndrDetection.service.js with the words of
--               backend/src/constants/ndrReasonCodes.constant.js (Words, Detection), the actions of
--               backend/src/services/ndr.service.js and update_rto_status of
--               backend/src/services/rto.service.js (Actions). Its state holds that of Tracking,
--               whose scans and shipments it reads and writes.
--   Tickets     backend/src/services/supportTicket.service.js (Opening, Service),
--               generate_next_sequence of backend/src/utils/sequentialNumber.util.js (Defs),
--               check_sla_breaches of backend/src/services/ticketSla.service.js (Sla).
--   Subscribing backend/src/services/subscriptionPlan.service.js: initialize_tenant_subscription,
--               change_subscription, sync_courier_access;
--               backend/src/services/planRenewal.service.js: renew_subscription and the invoice
--               that it makes (Billing/Documents.antt).
--   Courier     Breaker: backend/src/providers/shared/circuitBreaker.util.js. Retry:
--               backend/src/providers/shared/retryPolicy.util.js.
--   Base        results and calls (a call is a state and an exception; its state comes back after a
--               throw too), queries and updates of tables, signed integers and texts.
--
-- Conventions. A table is a list, the newest row first; a UUID is a number; a row has the columns
-- that the services read or write. Money is in paise and holds no smaller part; an amount that is
-- NaN is `none`. Weights are in grams, GST rates in hundredths of a percent, times of the breaker,
-- the tokens and the cache of the settings in milliseconds, other times in seconds, and the periods
-- of subscriptions in days. Numbers are unbounded: the widths of the database's columns are not
-- modelled. The code computes with doubles: where a product or a quotient is rounded to paise, as
-- in the tax and the margins, what doubles make of it is a parameter (TaxArithmetic of
-- Billing/Tax.antt, with its laws in IsDouble, and Prices of Rates/Margins.antt); the proration of
-- an upgrade is exact, and the code's may be a paisa off. Texts are lists of ASCII codes.
--
-- A transaction has a view of its own, which is committed or dropped at its end (Shipping/Session);
-- audit rows, events and couriers' bookings are effects that no rollback takes back. A call of the
-- plan check runs outside the transaction, as it does in the code. Calls come one after another:
-- the lock on the wallet's row does that for the bookings and the payments of one tenant. It does
-- not for a cancellation, which reads its shipment before it takes the lock, nor for the detection
-- of failed deliveries, of which five run at a time: what is proved of these holds for calls that
-- do not overlap. Where a call reads without a lock, the part that follows the read is a definition
-- of its own for the verification of a recharge, the processing of a batch and the record of a
-- failed delivery. Statements of the database do not fail, except those that a unique column or a
-- column that may not be null refuses: a second shipment for an order, a second order of a recharge
-- with the placeholder of the gateway's id, a second row with the hash of a refresh token, a second
-- subscription of a tenant or row of its usage for a period, a second return of a shipment, a
-- second ticket with one number, and a dispute or ticket without its required columns.
--
-- What is outside the repository is a parameter: couriers, the decryption of credentials, the file
-- store and the clock (the record World), the payment gateway (the record Gateway of
-- Recharge/Defs.antt), what the settings say (Billing.Documents.Config), and Redis (the record
-- Redis of Courier/Breaker/Defs.antt, with the laws of its keys and their expiry; a concrete one
-- stands in Courier/Breaker/Tests.antt). The calendar of the subscriptions, with the day that lies
-- a month or a year ahead, is the record Clock of Subscribing/Defs.antt; whether the database
-- answers an ignored duplicate with a row is an argument of the ingestion of scans; that it raises
-- an error for one, and the ingestion is rolled back, is not modelled. The threshold of the
-- automatic return, which the settings give, is the record Config of Returns/Defs.antt; the hours
-- by which tickets are due are the record SlaHours of Tickets/Defs.antt, and which couriers take a
-- request for a new attempt is an argument of the actions. The tenant's `company_state`, which the
-- invoice service reads, is no column of the tenant's model, so a booking bills with none.
--
-- The one loop that could run on, the retries, takes the allowed number of attempts as its fuel,
-- which its theorem shows to be enough.
--
-- Not modelled: logging, descriptions and notes, PDF documents and their delivery, the JSON of
-- couriers' raw replies, and the services that only read. Nor are the mails of the renewals, nor
-- the other services: logins and roles, orders and their import, and webhooks.
pub mod Base
pub mod Wallet
pub mod Status
pub mod Billing
pub mod Plan
pub mod Settings
pub mod Shipping
pub mod Courier
pub mod Dispute
pub mod Recharge
pub mod Remittance
pub mod Returns
pub mod Tickets
pub mod Rates
pub mod Subscribing
pub mod Tokens
pub mod Tracking
