-- ===== src/Lib.antt =====
-- A verification of arnon, a Go library for HTTP APIs: typed endpoints that answer problem
-- documents (RFC 9457), a router over net/http's mux, and the middlewares around them.
--
-- The parts and where they are:
--   * Prelude: Boolean tests, lists over the native numbers, Go's strings as lists of code points
--     with the functions of the package `strings` that the program calls (Prelude/Strings).
--   * Http: what the program uses of net/http: header maps as the lines in the order of addition
--     under canonical names, requests, and the response writer of a server, whose first
--     WriteHeader or Write sends the header. A handler is a function on the writer; where a
--     middleware hands its own writer to the handler (ETag, Compress, Timeout, Recover), a
--     handler is the sequence of its calls (`Program`), with its return or its panic (`Ending`)
--     where that matters.
--   * Reflect: Go's types and values as the walks by reflection of sanitize and validation see
--     them.
--   * Sanitize: the package sanitize: registry.go, tag.go, builtin.go, apply.go, prepare.go.
--   * Validation, Validation/FieldMap, Validation/Rules, Validation/Mapper: the package
--     validation: source.go, field_map.go, rule.go with registry.go and field_context.go,
--     mapper.go with playground.go. Validation/Pointers reads JSON pointers as RFC 6901 does.
--   * Problem, Problem/Kinds, Problem/Document, Problem/Reading: the package problem: problem.go,
--     errors.go, validation.go, validation_code.go, validation_source.go. A problem is a value
--     where Go has a pointer; every builder of the source clones, so no sharing is lost.
--   * Httpx/Accept: httpx/accept.go. Httpx/Respond: httpx/responder.go, problem_writer.go and
--     problem_mapper.go. Httpx/Endpoint: httpx/endpoint.go. Httpx/Precondition:
--     httpx/precondition/precondition.go. Httpx/Binding: httpx/binding. Httpx/Patch and
--     Httpx/Patch/Described: httpx/patch.
--   * Httpx/Routing, Httpx/Routing/Router: httpx/routing: patterns, chains of middlewares, the
--     router, its groups, and the registration of operations with the document.
--   * Middleware/Chain, Middleware/Compress, Middleware/Cors, Middleware/Etag,
--     Middleware/RateLimit, Middleware/RealIp, Middleware/Recover, Middleware/Throttle and
--     Middleware/Timeout: the files of the same names in httpx/middleware (chain.go, compress.go
--     with compress_options.go, cors.go, etag.go, rate_limit.go, real_ip.go with
--     real_ip_trust.go, recover.go, throttle.go, timeout.go). Middleware/Slashes: stripslashes.go
--     and redirectslashes.go. Middleware/NoCache: nocache.go. Middleware/Guards: content_type.go
--     and body_limit.go. Middleware/Stamps: request_id.go, secure_headers.go, service_desc.go and
--     context.go.
--   * OpenApi/Constraints: openapi/validation.go, the constraints that the tags of a field set in
--     its schema.
--   * Tests: the theorems at concrete inputs, and runs of the definitions.
-- An endpoint writes through Respond and Problem; the router documents an endpoint that it finds
-- below wrapping middlewares; the rate limit keys on the client that RealIp recorded.
--
-- Choices. A panic is an error value of the function that panics. Instants and durations are
-- nanoseconds since Go's zero time. Counters are unbounded where Go has int. A loop over a slice
-- is recursion on the list, and the bounds of unwrapToProvider and unwrapToTyped, 32, are their
-- fuel as in the source; the walks of Sanitize and Validation count their maximal depth, 16,
-- down. Concurrent requests of Throttle are sequences of turns, each one operation of a request
-- on a channel, or the deferred releases at its end; the lock of RateLimit makes each check one
-- step. The goroutine of a handler under Timeout, the end of the context and the middleware's
-- select are interleaved in any order.
--
-- Parameters stand for code outside the repository: encoding/json (`encode`), http.ParseTime
-- (`parse_time`), float64 with strconv.ParseFloat (`Float64`) and its arithmetic in the sliding
-- window (`FloatArithmetic`), what an `any` is read as (`read_any`), net and net/netip (`NetIp`),
-- Unicode's case folding (`fold`), http.Redirect (`redirect`), the mux (`accepts`, and the
-- dispatch of `serve_http`), compress/gzip (`GzipWriter`), mime.ParseMediaType
-- (`parse_media_type`), the library of JSON patches (`PatchLibrary`), strconv (`Parsers`,
-- `Numbers`), the JSON decoder on a target (`JsonDecoder`), what the validator of go-playground
-- reports (`struct_check`), and the stages of an endpoint (`Stages`). FNV-1a and hexadecimal
-- digits, which the entity tag is made of, are written out.
--
-- Not modelled: the generator of the package openapi (what it renders by reflection) and the
-- package observability, sanitizers from regular expressions, aliasing of the values that are
-- sanitized, logging, and a string that is not valid UTF-8.
pub mod Prelude
pub mod Http
pub mod Reflect
pub mod Sanitize
pub mod Validation
pub mod OpenApi
pub mod Problem
pub mod Httpx
pub mod Middleware
mod Tests
