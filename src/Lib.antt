-- ===== src/Lib.antt =====
-- provider-kit: a Go library that sends messages through interchangeable providers.
-- The program's parts and the modules that model them. Names are the source's in snake_case; a
-- pointer that may be nil is an `Option`, an `error` is a value of `Errors.Error` with `nil`.
-- - Base: numbers, Go's `int` and instants (ℤ), and Go strings (Base.Text: lists of bytes). GoMap:
--   Go's maps, as association lists. A `range` loop whose order shows (Channels, Providers) takes the
--   entries in an order of its own, which is a parameter, RangeOrder.
-- - Channel (channel.go), Errors (errors.go), SendResult (result.go), Message (message.go): the data
--   and their builders. A write through a pointer is a new value; where the caller still sees the
--   old pointer (NormalizeError) what it reads afterwards is a second result.
-- - Provider (interface.go): a provider is a record of actions on a world `W`, which stands for
--   all that a provider reads or changes; an action returns or panics (Provider.Actions). The clock,
--   timers and random bytes are a record Runtime, a context the instants at which it ends.
-- - Retry (retry.go): RetryProvider and RetrySender. The loop recurs on the attempts left, which
--   MaxRetries bounds, so it needs no fuel; Retry.Rounds follows it attempt by attempt, and Retry.Bound
--   says the same without the loop's own functions. `float64` is a parameter, a record of operations.
-- - Idempotency (idempotency.go): Store is MemoryIdempotencyStore, one function for each method,
--   since each holds the store's lock; Store.Calls lists the calls as data. Idempotency itself is
--   IdempotentProvider over any store, with or without Reserver; Memory puts the store in memory
--   behind these interfaces. Senders interleaves many calls of Send on one store, with a clock.
--   Sharing has the objects behind the pointers of a result (struct, metadata map, and the error, whose
--   Err may point to another ProviderError), and who can reach them; a step is a write by a caller, a
--   recording or an answer. NewIdempotentProvider also gives what it writes into its configuration.
-- - Registry (registry.go): the two maps as a state, one function for each method, since each holds
--   the registry's lock; Registry.Invariant has the calls as data, and Registry.History the abstract
--   view, the history of calls.
-- - Http (http.go): Http.Config is HTTPConfig, NewHTTPProvider and the redirect policy, Http.Exchange
--   the request that is built and the response that is read, Http itself Send. A URL is a value of a
--   parameter type; net/url and header names are a record NetLib; the HTTP client, encoding/json, the
--   clock and identifiers a record HttpWorld; the error of http.NewRequestWithContext a function of
--   the URL. A response body is its bytes and the error that it ends in.
-- - Template (template.go): the verification texts, BuildVerificationMessage, and the renderer, whose
--   loop over the parameters takes them in the order of the association list.
-- - Smtp (smtp.go): Smtp.Config is SMTPConfig, Validate and NewSMTPProvider, Smtp.Mail the recipient,
--   the headers and the body, Smtp.Client sendWithClient over a client that answers commands (data
--   Command), Smtp.Connection dialling, TLS, STARTTLS and the clean-up (a Handle is the dialled
--   connection or the TLS connection over it), and Smtp itself Send.
--   net/mail, mime and fmt.Sscanf are a record MailLib; net, crypto/tls, net/smtp, the clock and
--   identifiers a record Network, whose connections answer calls (data Call). What `defer` does
--   happens also where the body panics.
-- - GoStrings: what the code uses of strings, unicode/utf8 and strconv (%d is GoStrings.Decimal, on
--   fuel of 19 digits, enough for every int).
-- - Composition: providers from a factory in a registry, and retry around idempotency.
-- The retry and the idempotency wrappers are providers around providers and meet the rest only
-- through the interface. The documented behaviour of the runtime enters as named hypotheses:
-- IsExact (float64 products a / 2^k of at most 53 bits are exact and the conversion to an integer
-- drops the fraction), IsRange (a range loop meets each entry of a map once), IsPrompt (a wait is cut
-- short only by a context that has an error), IsFilled and IsFresh (random bytes fill the buffer and
-- do not repeat), WritesClean (net/mail and mime write no line break that they were not given) and
-- Releases (a dialled connection is new, a call on one leaves the others alone, and Close closes it).
-- Not modelled: the closing of response bodies; typed nil pointers inside an interface; overflow of
-- instants; the objects behind a Message, and outside Idempotency.Sharing those behind an error (the
-- Err of a ProviderError is a value there); Delete, and Set with a result, by a third party while a
-- send is under way; the interfaces MultiChannelProvider, TemplateRenderer, SMTPDialer and SMTPClient,
-- which the package declares and does not use.
pub mod Base
pub mod GoMap
pub mod GoStrings
pub mod Channel
pub mod Errors
pub mod SendResult
pub mod Message
pub mod Provider
pub mod Retry
pub mod Idempotency
pub mod Registry
pub mod Http
pub mod Template
pub mod Smtp
pub mod Composition
mod Tests
