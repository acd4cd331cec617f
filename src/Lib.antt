-- ===== src/Lib.antt =====
-- CloudFile: the web console (frontend/src), a client of the upload service and the state machine that
-- takes files from the file picker through hashing, initialisation, chunked transfer, merge and media
-- processing, with pause, resume, retry, cancel, delete and a network switch; and the upload service
-- itself (backend/internal), which keeps uploads, chunks, files and media tasks in a database and the
-- bytes in an object store. The two meet in the parts: the console sends slices of a file, the service
-- stores each under a key, and a merge composes them (Server/Parts).
--
-- Which file models what:
-- - Types: frontend/src/types.ts, the data. Ratio: the fractional numbers (progress, speed, remaining seconds) as
--   exact fractions; the rounding of doubles is not modelled.
-- - Wire, Api, Text: frontend/src/mockApi.ts. Each function of the client is two definitions: the request that it
--   sends (`upload_chunk_request`) and what it returns or throws for a reply (`upload_chunk`). `fetch`
--   is outside: what came of it is a `Reply`, which may reject, be refused with a status, carry a body,
--   or carry no JSON. `Platform` holds VITE_API_BASE, encodeURIComponent and SHA-256, of which nothing
--   is assumed. `decimal` prints with fuel of one more than the number, which has no more digits.
-- - App/State, App/Patches, App/Patch, App/Upload, App/Controls, App/Step: frontend/src/App.tsx. A `Console` is the
--   hooks' state with what lies outside React's state: `tasks_ref` (tasksRef.current), the armed timers,
--   the promises under way (`jobs`), and the values that the closures of the last render captured
--   (`mounted_online`, `mounted_kind`). Asynchronous functions are cut at each `await`: `after_init` is
--   prepareUpload once initUpload has settled. Every object that the source hands to `updateTask` is a
--   constructor of `Patch`. `step` takes one event: a click, a timer, a promise that settles, or a commit
--   of React, and `run` any sequence of them, so that every interleaving is a list of events. There are
--   more sequences than a browser can make: React may commit at any time, a timer may end at any
--   time, and other events may come before the answer of processMedia, which in a browser comes at once.
-- - App/Chunks, App/Invariant, App/WellFormed, App/Lookup, App/Jobs: what all tasks have in common.
--   App/Transfer: transfers that go through, from a picked file (Opening), over rounds of chunks
--   (Completion), a failed chunk (Retry) and a pause (Pause), to the merge.
--   App/Progress: the progress. App/Races, App/Overrides: clicks that meet a reply. App/Deletion: what
--   confirming the deletion of a task does.
-- - FileView/Wanted, FileView/Order, FileView/Stability: what the file list shows, in words of its own.
-- - Panel: frontend/src/components/UploadPanel.tsx. FileView: frontend/src/components/FileList.tsx, where `sort` is an insertion
--   sort in place of Array.prototype.sort, which is stable too, and `lower` stands for toLowerCase. Card: the labels
--   and buttons of frontend/src/components/UploadTaskCard.tsx and frontend/src/components/ChunkDrawer.tsx. Format: formatBytes and
--   formatTime. Stats: the statistics of frontend/src/App.tsx.
-- - Server: backend/internal. Server/Model: the rows of model/models.go. Server/Action: a call of the service
--   as a function of the state that may fail and keeps what it changed before it failed; Server/Action/Rules has a
--   rule for each way to build one. Server/Storage: the interface of storage/storage.go and the laws that clients
--   assume of it (`IsLawful`), for keys without `..`, repeated slashes or an end in
--   `.tmp`, which all stand for
--   themselves. Server/World: the state that requests share: rows, objects, the lock in memory, the inline
--   queue, the clock. The database is outside. A query or an update is a function of the rows, run by
--   `statement`, and `faults`, which may be any list, says which statements are refused. A transaction
--   that fails leaves the rows as they were.
--   Server/Keys, Server/FileName: the keys of objects. Server/Rows, Server/Uploads: InitUpload, UploadStatus, UploadChunk.
--   Server/Merge: MergeUpload, with Server/Merge/Rows, its changes of rows. Server/Media: RunMediaTask. Server/Compensate:
--   Compensate. Server/Files: ListFiles, DownloadFile, DeletePhysicalFile. Server/Routes: http/router.go, a request as
--   the operation that its handler calls. A method of the service is cut at each query whose answer it looks
--   at: `record_known` is the transaction of UploadChunk once it has looked for the chunk.
--   Server/Tables: what the rows have to do with each other (`IsConsistent`), over the changes of rows (Steps)
--   and the requests (Chunks, Merges, Requests). Server/Parts: the order of the parts. Server/Merge/Whole, Server/Merge/Served: the object of a merge.
--   Server/Media/Retries: a task that always fails. Server/Deletion, Server/Repair: what a deletion and a
--   run of the compensation leave.
--   Server/Tables/Stable, Server/Tables/Handled: an interface of predicates on rows, and what the requests
--   that neither open an upload nor send a chunk do to one that fills it. Server/World/Calm: calls of a
--   database that refuses nothing, over a store that keeps what it was given (`IsReliable`).
-- - Server/Ledger: an abstract specification of the service: a `Ledger` of the uploads that were opened and
--   the chunks that were received, and the changes of it that a request may make (`Allows`), with Rows,
--   Chunks, Guards and Refines for what the rows say of it. Server/Listing: UploadStatus and the ledger.
--   Server/Resend: a chunk that is sent again. Server/Keys/Apart, Text/Digits: the keys of parts.
-- - Server/Delivery: an upload from InitUpload over one UploadChunk for each slice of a file to MergeUpload, as the
--   console's client cuts it. The requests follow one another without others in between, the chunks by
--   rising index, over a database that refuses nothing.
-- - Server/Locking: any number of requests that take, hold and free the lock in memory in any order, as a step
--   relation; what a request does while it holds the lock is any change of the rest of the state.
--   Elsewhere requests run one after the other: interleavings of their statements are not modelled.
-- - Of the whole service: ids of rows of all tables come from one counter, which gives none twice; sizes and counts are natural
--   numbers without an upper bound, so that a request with negative ones, and the handler's test that its
--   fields are there, have no counterpart; one request reads one clock. SHA-256 is a parameter, as is the
--   processing of a media task.
-- - View: what frontend/src/components/StatsCards.tsx, frontend/src/components/ChunkDrawer.tsx, frontend/src/components/FileList.tsx and
--   frontend/src/components/UploadTaskCard.tsx show, as texts, and the event that a click is. The speed and the
--   progress of a card, which are rounded doubles, are not among the texts. View/Screen: the rest of the
--   page of frontend/src/App.tsx and the buttons of frontend/src/components/UploadPanel.tsx, with the texts of the
--   dialog, the toasts, and the handlers of the file input and the drop area.
-- - Examples: a concrete platform and consoles on which the theorems are run.
--
-- Fresh ids, the clock and random numbers come with the events. Progress is divided by a chunk count that
-- the server gives; a count of 0, which in the source makes NaN, is a fraction with denominator 0 here.
-- The state of the confirm dialog is what is to be deleted; View/Screen gives its texts.
--
-- Not modelled: layout, fixed texts and styles, the clipboard, React's double invocation of updaters in strict
-- mode; of the backend, the forms and status codes of answers, the stores on files and on MinIO, the
-- lock in Redis, RabbitMQ and the consumers of both queues, FFmpeg, settings and process start; and the
-- earlier service in Python (cloudfile/).
pub mod Base
pub mod Ratio
pub mod Types
pub mod Text
pub mod Wire
pub mod Api
pub mod App
pub mod Format
pub mod Card
pub mod Examples
pub mod FileView
pub mod View
pub mod Panel
pub mod Server
pub mod Stats
