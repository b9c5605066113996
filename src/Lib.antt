-- ===== src/Lib.antt =====
-- Verification library for http-rfc-utils: the parts of it that decide what a server answers to
-- a conditional or a range request, HTTP dates and timestamps, structured fields, the JSON modules
-- and the percent-encoding of URIs.
--
-- The program's parts, and the files that model them:
--   * src/json-pointer.ts: JsonPointer.antt. `parseJsonPointer`, `formatJsonPointer`,
--     `isValidJsonPointer` and `evaluateJsonPointer` with their helpers, one function each under
--     the same name in snake case. Escape, RoundTrip, Grammar, Index and Evaluate hold the proofs,
--     Fragment the URI fragments, which stand on UriEncoding.antt: src/internal-uri-encoding.ts and
--     src/internal-percent-encoding.ts, with UTF-8 as a parameter.
--   * src/etag.ts: Etag.antt. The entity tag, its reader, its writer, the two comparisons and the
--     djb2 hash. Format, Compare and Generate hold the proofs.
--   * src/conditional.ts, with the default headers of src/cors.ts: Conditional.antt. The list
--     parser is a loop on fuel; `evaluatePreconditions` and `handleConditionalRequest` are read
--     as functions of the four headers, the method, the current tag and the date. The platform's
--     test of a header that `new Response` is given is a parameter: a refused one is an error.
--     Lists, Fuel, Precedence, Stops and Handler hold the proofs. It uses Etag.
--   * src/range.ts: Range.antt. The Range and the Content-Range reader and writer, the sorting
--     and merging of ranges, If-Range and `evaluateRange`. Parse, Header, Normalize, Coverage and
--     Evaluate hold the proofs. It uses Etag.
--   * src/json-merge-patch.ts: JsonMergePatch.antt. The validation, the copies with their bound on
--     the depth, `mergePatch` by structural recursion on the patch, and the operations around it.
--     Copy, Total, Distinct and Members hold the proofs.
--   * src/json-patch.ts: JsonPatch.antt and, below it, Values (what is JSON, copies, `deepEqual`),
--     Paths (`getAtPath`, and `resolveParent` with the change at the parent) and Document (the
--     operations and their readers). JsonPatch.antt applies the operations. Sequence, Places,
--     Copies, Readback, Undo and Accepts hold the proofs. It uses JsonPointer.
--   * src/datetime.ts: Datetime.antt holds HTTP dates and Timestamp RFC 3339. Clock models the
--     `Date` of ECMAScript, by days from the start of the year 0, and Pieces the regular
--     expressions. Digits, Reading, Years, HttpDate, Obsolete, Rfc3339 and Validators hold the
--     proofs; the last one runs conditional.ts and range.ts with the dates of datetime.ts. The
--     current time is an argument.
--   * src/structured-fields.ts, with src/types/structured-fields.ts and `hasLoneSurrogate` of
--     src/internal-unicode.ts: StructuredFields.antt holds the values and the characters,
--     Parser the class `Parser`, whose index is the text that is left, and Serializer the
--     serializers. Spans, Numbers, Bare, Delimiters, Entries, Parameters, Items, Members, Lists,
--     Dictionaries and Solid hold the proofs of the round trips, from the scans up to the whole
--     fields; Ranges is about the numbers that are read, Shorter, Rounds and Fuel about the loops. Base64
--     and UTF-8 are parameters. A number is its thousandths: one with more decimals, which `toFixed`
--     would round, is not in the model, and -0 is 0.
--   * The values of src/types/json-patch.ts and src/object-map.ts: Json.antt, shared by the JSON
--     modules.
--   * Strings are lists of UTF-16 code units, with the methods of strings that the sources call:
--     Text.antt. Common.antt passes on the library's names and holds lists, results, integers and
--     Boolean tests.
--
-- State. The modelled code keeps no state between calls. A loop over an index becomes a function
-- of the text that is left; an object that a function builds up becomes its result; an exception
-- is the `err` of a Result, and null or undefined is `none`.
--
-- Bounds and fuel. Times are of the years 0 to 9999, which is what the readers of src/datetime.ts
-- make. A year is looked for from day / 366 to day / 365, where it lies. The loop of
-- `parseIfNoneMatch` has as many rounds of fuel as the header has units: each round reads at least
-- a quote. The loops of the structured fields' parser have a round more than the text has units:
-- each round but the last reads at least one. In both, out of fuel is `none`, which is no answer of
-- the loop: a null of the parser is a `some` with the text where it stopped. Decimal and hexadecimal digits have fuel for the
-- number of digits. `djb2Hash` keeps its 32-bit wrap-around. Numbers read by `parseInt` are exact
-- naturals, so they are the code's below 2 ^ 53.
--
-- Not modelled: `generateETagAsync` (the platform's SHA-256); `JSON.parse` and `JSON.stringify`,
-- which are parameters where they are called; cyclic values; all the other files of src/.
pub mod Datetime
pub mod Common
pub mod Text
pub mod Json
pub mod UriEncoding
pub mod JsonPointer
pub mod Etag
pub mod Conditional
pub mod Range
pub mod JsonMergePatch
pub mod JsonPatch
pub mod StructuredFields
