-- ===== src/Lib.antt =====
-- Verification of go-proton-api: the fake backend that stands in for the Proton servers
-- (server/backend) with some of its HTTP handlers (server), and the client's event stream,
-- sessions, paging, imports, sent packages, contact cards, worker pool and connection control
-- (at the root).
--
-- The backend keeps maps of accounts, addresses, labels, messages, attachments and updates
-- behind one lock. An operation finds the account, changes the maps, and logs an update whose
-- id it appends to the account. A client polls events: the server takes the updates that follow
-- the event the client knows, merges them, and builds one event from what is left; the client
-- follows the chain of events until the server has no more.
--
--  Base: shared helpers. Association lists stand for Go maps, ℤ for the results of int
--   arithmetic that can wrap.
--  Backend/Types: the records of types.go, account.go, address.go, attachment.go, label.go,
--   message.go and the two settings files.
--  Backend/Exec: results, errors, panics (nil dereferences and slices out of range) and loops
--   that never end, threaded through the state. An error keeps what was written before it.
--   Backend/Exec/Returns takes a sequence that returns apart.
--  Backend/Store: unsafeBackend of backend.go, with withAcc in its two forms and newUpdate.
--   Backend/Store/Keeps has the rules by which an operation keeps an invariant,
--   Backend/Store/Ordered the order of the update log.
--  Backend/Updates: updates.go, that is merge and the replaces methods.
--  Backend/Labels: toLabel of label.go and getLabelIDsToDelete, CreateLabel, UpdateLabel and
--   DeleteLabel of api.go.
--  Backend/Message: message.go, that is the label rules addLabel and remLabel, getLabelIDs and
--   the constructors, with the flags of message_types.go.
--  Backend/Metadata: toMetadata and toUser. Backend/Events: getLastUpdateIndex, GetEvent,
--   GetLatestEventID and buildEvent of api.go.
--  Backend/Mailbox: the message methods of api.go, from CountMessages to UpdateDraft, with
--   GetMessages in Backend/Search next to getMailMessages of server/messages.go that answers
--   with its page; Backend/Mailbox/Pages the pages of GetMessageIDs, Backend/Mailbox/Effects
--   what the methods do to the messages, Backend/Mailbox/Deletion what DeleteMessage leaves.
--  Backend/Delivery: CreateMessage of backend.go, with its search for duplicates, and
--   SendMessage of api.go.
--  Backend/Attachments: sortAttachment, CreateAttachment and GetAttachment of api.go, and
--   attachment.go.
--  Backend/Settings, Backend/Addresses: the settings and address methods of api.go and
--   backend.go; Backend/Addresses/Order what SetAddressOrder leaves, with Server/Profile/Order
--   the request for it. Backend/Users: the user methods of backend.go. Backend/Sessions:
--   api_auth.go and withAccAuth.
--  Backend/Contacts: the contact methods of api.go, and contact.go of the backend.
--   Backend/Reads: the methods of api.go that only read, and those that only announce a change.
--  Backend/Operations: the methods that write to the backend as one type, and the runs of the
--   backend, with Backend/Operations/Invariants for what a run keeps,
--   Backend/Operations/Lifecycle for new and removed users and refreshes, and one file for each
--   other group of methods.
--  Backend/Events/Answers gives the answer of GetEvent from what it reads. Client/EventStream:
--   GetEvent of event.go, with the requests answered by GetEvent of the backend in
--   Client/EventStream/Delivery, and Client/EventStream/Windows about the windows that such
--   requests split off. Client/MessageList: GetAllMessageIDs of message.go. Client/Paging:
--   fetchPaged of paging.go and GetMessageMetadata of message.go, with the requests answered by
--   the backend in Client/Paging/Served.
--  Server/Response: what a handler answers, as a function of the state of the backend.
--   Server/Auth: server/auth.go and requireAuth of server/router.go. Server/Mail,
--   Server/Import: server/messages.go. Server/Profile, Server/Settings: the handlers of
--   server/labels.go, addresses.go, events.go, attachments.go, users.go, mail_settings.go,
--   core_settings.go, keys.go, features.go and contacts.go. Server/RateLimit:
--   server/rate_limit.go and the middleware that applies it.
--  Client/ContactList: the paged lists of contact.go at the root.
--  Client/Session: client.go with authRefresh of manager_auth.go, and Client/Session/Recovery
--   the session against the modelled server.
--  Client/Import: ImportMessages, importMessages and ChunkSized of message_import.go with
--   buildImportReqFields of message_import_types.go; Client/Import/Chunks is about the chunks,
--   Client/Import/Answered about what is sent and returned. Client/Sending:
--   message_send_types.go, with its records in Client/Sending/Types, the recipients in
--   Client/Sending/Readers and the packages in Client/Sending/Keys.
--  Contacts/Card, Contacts/Group: contact_card.go; Contacts/Card/Codec has what it relies on in
--   go-vcard and gopenpgp, and Contacts/Card/Writable what keeps a card one that can be
--   written. Contacts/Settings: contact_types.go.
--  Net/Listener, Net/Control: netctl.go, that is the listener with its connections and the
--   controller NetCtl.
--  Pool/Job, Pool/Process, Pool/Future: job.go, pool.go and future.go; one job is a step
--   relation, a call is the loop over its requests, and a function of how its jobs end and of
--   the order in which its goroutines report.
--  Backend/Tests, Client/Tests, Contacts/Tests, Net/Tests, Pool/Tests, Server/Tests: concrete
--   inputs.
--
-- Bounds and fuel. A walk over labels (path_to_root, get_label_ids_to_delete) takes fuel, and
-- running out of it is the outcome stuck, never an error of the code. The theorems on forests
-- show that the number of labels is enough. Client/EventStream counts the 49 further requests
-- of the constant maxCollectedEvents, so it needs no fuel. In Client/Paging the loop that asks
-- again while an answer is stale takes fuel; the fake server never answers so, and one request
-- is enough. Client/ContactList counts the rounds of its loop, so it needs no fuel.
-- Client/MessageList takes fuel: one round for each id of the mailbox, and one more, are
-- enough. So does Client/Import for the loop over the chunks: one round for each message, and
-- one more, are enough where no message is larger than a chunk; ChunkSized itself does not end
-- otherwise. An update id is a natural number in place of uint64: the ids are the lengths of a
-- map. A Go map is an association list in a fixed order; where the source ranges over a map,
-- the model takes that order, and the theorem on repeated deliveries lets the order change
-- between two ranges.
--
-- Parameters: strings.Contains and the slices of juniper are the fields of ListTools, and its
-- parallel stream is the argument collect; go-vcard, gopenpgp and encoding/base64 for contacts
-- are the fields of CardTools and KeyTools (the decoder of go-vcard writes names in capitals,
-- so its round trip is relied on for cards whose names are in capitals already, and whose
-- values and groups are texts that it can write; the predicates IsUpper and IsPlain stand for
-- both); gopenpgp and go-srp elsewhere are the fields of KeyMaker and the arguments verify and
-- server; ids made by uuid.NewString, random tokens and the time are arguments of the
-- operations. The calls of gopenpgp that make the packages of a sent message are the fields of
-- SendTools; an import of the client takes its encryption (EncryptRFC822 of message_encrypt.go)
-- and its request as arguments. For an import on the server rfc822, net/mail, mime and gopenpgp
-- are the fields of ImportTools. How the job of each request ends (its queue closed, a value,
-- or an error, by whether the call was cancelled) and which goroutine reports next are the
-- arguments jobs and picks of Pool/Process. A connection that is wrapped, the work of a job and
-- the readings of the clock are arguments too.
--
-- Not modelled: the table of HTTP routes and the handlers of statistics, reports and test
-- commands, the resty client and its retries, OpenPGP and MIME work, and the transports that
-- netctl.go and pool.go build on.
mod Base
pub mod Backend
pub mod Client
pub mod Contacts
pub mod Net
pub mod Pool
pub mod Server
