-- ===== src/Lib.antt =====
-- The backend of a notes application (NestJS, TypeScript): accounts and sessions, notes in a
-- tree, the import of markdown files, and an assistant that searches the notes.
--
-- A request with a password passes the guard of infrastructure/security, which counts failures
-- per client; modules/auth then checks the password and issues an access token and a refresh
-- token; every other request passes the guard of modules/auth, which looks up the user and the
-- version of their tokens. modules/notes imports files as a tree of notes in one transaction.
-- modules/ai indexes notes in the background: it cuts them into chunks, embeds the chunks with a
-- provider of infrastructure/ai, and retries what fails; runs of the assistant hold a slot of a
-- limiter. The files model these parts:
--
-- - Prelude: Boolean tests, lists over the native numbers, and Map, a JavaScript map with string
--   keys.
-- - Security/BruteForce: src/infrastructure/security/services/bruteForceService.ts, the
--   configuration beside it and guards/bruteForce.guard.ts. The service is a record; each of its
--   methods is a function, with one argument for every reading of the clock.
-- - Auth/Database: what the services use of the database client and of the token library, as
--   records of operations and laws. Auth/Sample has an instance of both.
-- - Auth/Tokens: src/modules/auth/services/refreshToken.serivce.ts and accessToken.service.ts.
--   Auth/Tokens/Race cuts a rotation where it awaits the database, so that rotations interleave.
-- - Auth/Sessions: src/modules/auth/services/auth.service.ts, guards/jwtAuthGuard.guard.ts, and
--   src/modules/users/users.service.ts.
-- - Core/Limiters: src/core/utils/limiters.ts. Core/Config: src/core/config/env.ts.
--   Core/Selectors: src/core/selector, src/core/sort and src/core/utils/fromStringToArray.ts.
--   Core/Tree: src/core/tree/tree.service.ts, whose nodes are changed in place: a node is a cell
--   of a store, and a reference is its address.
-- - Notes/Database: what the notes service uses of the database client, as a record of operations
--   and laws. Notes/Service: src/modules/notes/service/notes.service.ts and
--   src/modules/notes/utils/note.mapper.ts, over that record; Notes/Service/Sample has an
--   instance of it, and Notes/Service/Ranking reads a search page after page. The full-text query
--   and the order of texts are arguments.
-- - Notes/Search: src/modules/notes/service/notesSerach.service.ts and the cursor and order it
--   uses. Notes/Controller: the requests for notes, but for the import, in
--   src/modules/notes/controller/notes.controller.ts.
-- - Notes/Trees: src/modules/notes/service/notesTree.service.ts and the utilities it uses, over
--   Notes/Service and Core/Tree.
-- - Security/SecretBox: src/infrastructure/security/crypto/secretBox.ts, over a cipher that is an
--   argument with its laws; Security/SecretBox/Sample has an instance.
-- - Ai/Credentials: src/modules/ai/credentials/aiCredentials.service.ts, from a user's credential
--   to the account of a run. Ai/Credentials/Saving: saving, showing and removing a credential.
-- - Ai/ChatHistory: the choice of messages in src/modules/ai/utils/chatPrompt.ts.
-- - Ai/RunLimiter: src/modules/ai/credentials/aiRunLimiter.service.ts. The release functions that
--   acquire returns are numbered tickets.
-- - Ai/LocalEmbedding: src/infrastructure/ai/providers/local/local-embedding.provider.ts, as a
--   machine whose events are requests, answers, timeouts, exits of workers and the idle timer.
-- - Text: strings as lists of UTF-16 code units, where the code looks into them.
-- - Notes/Import/Paths: src/modules/notes/import/importPath.ts. Notes/Import/Links:
--   src/modules/notes/import/linkIndex.ts; Links/Resolving states which targets are the
--   candidates of a link, with no index.
-- - Notes/Import/Plan: src/modules/notes/import/planImport.ts from the drafts of the notes on.
--   Notes/Import/Batches: src/modules/notes/service/notesImport.service.ts, over a table of notes
--   that is a parameter.
-- - Rag/Indexer: src/modules/ai/rag/ragIndexer.service.ts. Rag/Search:
--   src/modules/ai/rag/hybridSearch.ts and ragSearch.service.ts, with the arithmetic of the
--   scores as an argument. Rag/Chunking: the splitting and packing of
--   src/modules/ai/rag/chunkMarkdown.ts.
--
-- Failures are values: Auth/Result and the error types of the other parts have one constructor
-- for each exception, and a state stands beside the error where the code may have written before
-- it failed. Times are natural numbers of milliseconds; a token is signed and expires by the
-- whole second. Strings that the code only compares are strings; ids are strings.
--
-- Some loops run on fuel: the parts of a long text (Rag.Chunking.hard_from) and the batches of an
-- embedding (Rag.Indexer.embed_from). Both get as much fuel as the text or the list is long,
-- which is enough because each turn takes away at least one element. The walks of a tree
-- (Core.Tree.depth_first_search, Notes.Trees.from_tree) get as much as there are nodes, which is
-- enough because a child stands behind its parent in the store.
--
-- A request reads the clock once in modules/auth; the times that the token library adds to a
-- payload are part of signing and verifying. That the database does not answer is modelled where
-- the code tells it apart, in authenticate and the guard. The framework, the validation of
-- requests, logging, the providers that call other programs, and SQL are not modelled. The
-- titles, front matter and rewriting of links of the files of an import, and the tree of an
-- import are not modelled.
pub mod Prelude
pub mod Ai
pub mod Auth
pub mod Core
pub mod Notes
pub mod Rag
pub mod Security
pub mod Text
