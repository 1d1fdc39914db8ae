-- ===== src/Lib.antt =====
-- The Fastly Compute SDK for C++: its cache APIs, HTTP bodies, requests and responses, KV stores, ESI
-- and the smaller services.
--
-- The program is a C++ library over the functions that the Compute host gives a WebAssembly guest.
-- The Simple Cache API (src/cpp/cache/simple.cpp) is written in terms of the Core Cache API
-- (src/cpp/cache/core.cpp), which calls the host of src/cpp/fastly.h; both hand out HTTP bodies
-- (src/cpp/http/body.cpp), which are buffered C++ streams over a box of the Rust bridge in src/.
--
-- Host: the host functions of src/cpp/fastly.h and of the Rust bridge. They are not part of the
--   repository, or forward to crates that are not, and so are records over an unknown state, which
--   the modules below take as parameters. Host/Options holds the option structs and mask bits.
-- Cache/Core/Options, Cache/Core/Abi: the option structs and error codes of
--   include/fastly/cache/core.h and the three overloads of `as_abi`. Abi/Decode is what a host reads
--   from a struct and its mask; Abi/Masks and Abi/Closed are the proof's steps.
-- Cache/Core/Join, Cache/Core/Headers: `join_strings`, `set_request_header_values`, `RequestHandle`.
-- Cache/Core/Handles, Cache/Core/Found: the handle classes, `CACHE_TRY`, `Found`.
-- Cache/Core/LookupBuilder, InsertBuilder, Replace, ReplaceBuilder, Transaction and
--   TransactionLookupBuilder, TransactionUpdateBuilder, TransactionInsertBuilder: the classes of these
--   names, one function for each method. ReplaceBuilder/Balance has a replacement from its begin to
--   its end.
-- Cache/Simple: `get`, `get_or_set_with`, `get_or_set`, `purge` and `purge_with_opts`. A function of
--   the source that is long is cut at its early returns: `stream_transaction`, `insert_made`,
--   `insert_entry` and `fill_entry` are consecutive parts of `get_or_set_with`. Simple/Dictionary is
--   what it promises, a dictionary with client programs; Simple/Objects is what the host's documentation
--   says of lookups, insertions, streaming bodies and purges; Simple/Refinement relates the two.
--   Simple/SurrogateKeys is the surrogate key of src/cache.rs, with SHA-256 as an argument.
-- Http/Buffer: `overflow` and `sync`, which `Body` and `StreamingBody` share, and what they inherit
--   from `std::streambuf`. Http/Body and Http/StreamingBody are the two classes,
--   and Trace below each is what a user does with one: calls in any order.
-- Http/Header, Http/RustIteratorRange: include/fastly/http/header.h and
--   include/fastly/detail/rust_iterator_range.h; RustIteratorRange/Bridged is a loop over an iterator
--   that answers by a Boolean and out parameters.
-- Http/Response: `Response` of src/cpp/http/response.cpp, over the bridge functions of
--   Host/Responses. Http/Ranges: the ranges that its header getters give, and a request's.
-- Http/Request: `Request` of src/cpp/http/request.cpp, over Host/Requests: making requests and their
--   bodies; Request/Headers, Target and Caching are its properties, Request/Sending its sending, and
--   Request/Pending is `PendingRequest` and `select`, with the Rust side in src/http/request.rs.
-- Backend, KvStore, Log, ConfigStore, SecretStore, DeviceDetection, Geo, Security, Errors: the files
--   of these names in src/cpp, over the records of Host. KvStore/Inserting, LookingUp, Erasing and
--   Listing are the builders, KvStore/Pages the pages of a list; KvStore/Dictionary is what a store
--   promises, and KvStore/Refinement relates the code to it.
-- Esi: src/cpp/esi.cpp with the shims of src/esi.rs, through which a callback's result crosses the
--   bridge as a code and out parameters.
-- Http/StatusCode, Http/Purge, Erl: src/cpp/http/status_code.cpp, src/cpp/http/purge.cpp,
--   src/cpp/erl.cpp.
-- Prelude: lists, decisions and integers over the native numbers; Prelude/Effects is the monad of
--   programs over a state that may return, fail as `tl::expected` does, or abort the process.
-- Laws, Handles, Balance, Insertion, Trace and the like below a module: the theorems about it.
--   Cache/Simple/Ends has the rules by which handles are counted; a host's documented behaviour is a
--   record of laws beside the theorems that rest on it.
-- Tests: small hosts, and the theorems applied to them.
--
-- Conventions. A string or vector of bytes is a list of numbers, a `std::chrono` duration the integer
-- that it counts; where the host takes a `uint64_t` or `uint32_t`, the wrap-around is written out. An
-- object that wraps a box of the bridge is the box, a number; a null box is `none`. An `err` pointer
-- that the bridge sets is an error of the run (Host/Calls). A
-- shared handle is its number; it is closed where its last owner goes. Builder methods are functions
-- on the builder; the destructors of the temporaries of a call chain belong to the caller.
--
-- Fuel. `write_loop` runs on as many rounds as there are bytes pending, of which each takes at least
-- one; `fill_loop` on two rounds more than there are bytes. The fuel of `take_body_string` is its
-- caller's choice, and one round more than there are bytes is what it needs; so is that of `for_each`,
-- a loop over a range, which needs one round more than there are items.
--
-- Not modelled: a write that answers more than it was given, after which the index of `overflow`, an
-- `int`, can wrap around; what the Rust bridge in src/ forwards to the fastly crate, which the records of Host
-- stand for; moved-from objects, whose use is undefined; the vendored `tl::expected`; examples, tests
-- and build files. `std::format` makes the text of a log message, which is an argument here.
pub mod Prelude
pub mod Host
pub mod Http
pub mod Cache
pub mod Erl
pub mod Backend
pub mod KvStore
pub mod Log
pub mod Errors
pub mod Esi
pub mod Security
pub mod Geo
pub mod DeviceDetection
pub mod SecretStore
pub mod ConfigStore
mod Tests
