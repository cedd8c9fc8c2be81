-- ===== src/Lib.antt =====
-- WFA: the server of a workshop (vehicles, parts and services) and the text form in which it answers.
--
-- The server (Server/) takes HTTP requests through uWebSockets, keeps a table of sessions, and reads
-- and writes one SQLite database. Each route is a function of Server/include/WebRoutes; it checks the
-- elements of the query or the body (Shared/include/Query.h), checks the session's level, runs SQL
-- statements, and answers with a status or with a tree of texts (Shared/include/Response.h). The
-- translator (Translator/) reads that text form and fills pages of HTML and tags with it.
--
-- Files and what they model:
-- - Base: strings as lists of bytes (`text` of a literal), std::find on ranges (Base/Scan),
--   std::unordered_map as an association list (Base/Map), std::to_string and std::from_chars of
--   unsigned integers (Base/Decimal), std::stol (Base/Int), variables that own handles (Base/Slots). Base/Result: how a function outside the
--   request handlers returns or stops; its `out_of_fuel` is a loop that the fuel did not finish.
-- - Query: parseURLValues and hasElement, containsAll, containsAny. A round of the loop takes at
--   least a byte or ends, so the length of the text is fuel enough.
-- - Response: class responseWrapper. `elements` and `forcedArrays` are one list of entries; a vector
--   of values is its first element and the others, since none is ever empty. `toData` appends to the
--   text so far and erases its last comma as the code does; Response/Print has the compact form as
--   an independent print, Response/Adding what `search` finds behind `add`. Response/Parse is
--   fromData: a byte or more is taken by every two calls of its loops, so twice the length and two
--   is fuel enough (Response/Parse/Ends); Blocks, Pieces, Steps, Values and RoundTrip follow a
--   printed text. Response/Unformatted is fromUnformattedData.
-- - Session: cookieManager (Session/Cookies), authLevel as a 32-bit pattern (Session/Levels), the
--   session table and the questions asked of it (Session/Table). Authenticator has the operations
--   that change it: `log_in` is authenticator::request.
-- - Platform: what comes from outside the repository, as a record that everything below takes: the
--   database with one call for sqlite3DB::query, libcurl's unescaping, the iteration order of
--   std::unordered_map, and double.
-- - Handler: the monad of a request handler, `Act P A`. Its state is `Server P` (sessions, random
--   draws, database, calls on the response); it goes on, returns early, or fails: by an exception, a
--   failed assertion, undefined behaviour (a read out of range, a division by zero) or a loop that
--   does not end. Of a log line only the values are modelled that may throw. Handler/Rules and
--   Handler/Refusal have a rule for each way to build a handler, by which the routes are proved.
-- - Database: the table names and generateLIKEArgument, generateUpdateStatement.
-- - Routes: one function for each function of namespace webRoute, in its file's module. Router:
--   net() of Server/src/Network.cpp, a constructor and a case of `handle` for each route;
--   Router/Lambdas has the three handlers that are written in place.
-- - Once, Kept, Router/Denials: the lemmas about each route behind Router/Answers, Router/Sessions
--   and Router/Permissions, by the rules of Handler/Rules, Handler/Steps and Handler/Refusal.
--   Handler/Runs and Handler/Breaks have rules for runs that go on or fail, by which
--   Authenticator/Login and Refused follow `request`, Routes/Services/Authorising follows
--   authoriseRequest and Routes/Vehicles/Missing follows updateVehicle and deleteVehicle.
--   Authenticator/Opening has the states before and behind a session.
-- - Query/RoundTrip, Session/Header: texts printed from pairs and read back. Session/Unique,
--   Session/Draws: the laws of the session table and of the choice of an identifier.
-- - Translator (Translator/src/Source.cpp): Condition has the tests of a "<HTMTCOND:" tag, Search
--   tagSearch, Page a parsed page and what `apply` does with a response, Parse translation::parse and
--   parseSubHTML. A round of each loop takes a byte or more, and so do the contents of a tag, so the
--   length and one is fuel enough. Page/Render has the text of a page as a function of its own,
--   Search/Flat a tag without tags in it,
--   Condition/Reading what the text of a condition stands for. Forward (Translator/include/Forwarding.h
--   and Curl.h) has what of an answer goes on to the browser, Links the lines of the link file
--   with the pages that they load,
--   Handles the special members of curlwrapper as steps over a row of variables.
-- - Posted: HttpCallWrapper of Server/include/Network.h, and the same lines of extractPostBody: the
--   callbacks that collect a body, over the sequence of the events that uWebSockets reports. max_size()
--   of std::string is a parameter; memory that runs out below it is left out.
-- - Sql (Server/include/Database.h): SQLResult::query and execute over the functions of SQLite as a
--   record; the loop over the rows runs on fuel, and Sql/Cells says how much a run takes. Sql/Rows has
--   the rows as a relation, Sql/Handles the count of live statements, Sql/Databases
--   which sqlite3DB owns which handle. The handlers do not run on it: they take the call of
--   sqlite3DB::query from Platform, whose reply has no column names.
-- - Console (Server/src/Source.cpp): the lines that printResult prints, the commands that are typed,
--   and autoexec over the lines of its file.
-- - Tests: a platform that records its statements, runs of the model, and the theorems at them.
--
-- Not modelled: the matching of paths by uWebSockets, the lines that /debug/displayTables prints, the
-- messages of the console and the first user that main inserts, SQLite itself, multicurlwrapper, which
-- nothing uses, and the calls of libcurl.
pub mod Base
pub mod Query
pub mod Response
pub mod Session
pub mod Platform
pub mod Handler
pub mod Database
pub mod Authenticator
pub mod Routes
pub mod Router
pub mod Kept
pub mod Once
pub mod Tests
pub mod Translator
pub mod Sql
pub mod Posted
pub mod Console
