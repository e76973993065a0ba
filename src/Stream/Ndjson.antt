-- ===== src/Stream/Ndjson.antt =====
-- src/runtime/ndjson.ts: line-delimited JSON, and the final states of the Ollama protocol.
pub mod Terminal
use tasc.Base.{
  ℕ, ◌+◌, ◌-◌, Bool, true, false, not, ◌&&◌, ◌||◌, List, [], ◌∷◌, ◌++◌, Option, none, some, ltb,
  leb, ◌==◌, nat_eq, is_none, if◌then◌else◌, length, all, last?, Result, ok, err, require, refuse,
  ◌>>=◌, ◌>>◌,
}
use tasc.Stream.{CodecError, CollectedStream, RuntimeStreamTiming, Source}
use tasc.Stream.Bytes.{slice, get_elem?}
use tasc.Stream.Collect.{CollectOptions, collect_bytes, check_utf8}
use tasc.Stream.Json.{Json, own, json_or_null, has_non_empty_text, is_true, is_count}
use tasc.Stream.Observed.{observed_at_offset}
use tasc.Stream.Sse.{first_line, timing}
use tasc.Text.{Text, codes}

pub data NdjsonProtocol : Type 0 where
  generic_ndjson ollama : NdjsonProtocol

-- `parse_json` is `parseBoundedJson` under the limits, `payload_identity` is
-- `createStudyPayloadIdentity` with the caller's identity.
pub record NdjsonOptions : Type 0 where
  pub collecting : CollectOptions
  pub max_line_bytes : ℕ
  pub max_items : ℕ
  pub protocol : NdjsonProtocol
  pub parse_json : List ℕ → Option Json
  pub payload_identity : List ℕ → Text

pub record NdjsonItem : Type 0 where
  pub index : ℕ
  pub json : Json
  pub raw_line_identity : Text
  pub observed_at : ℕ
  pub done : Bool
  pub provider_error : Bool
  pub usage_present : Bool
  pub meaningful_output : Bool

-- `collect`, which refuses a byte-order mark where the event streams pass over it.
unfoldable pub collect : CollectOptions → Source → Result CodecError CollectedStream
unfolding collect_bytes check_utf8 first_line
collect o source = do
  c ← collect_bytes o source
  require (first_line c.bytes == 0) CodecError.utf8_bom
  check_utf8 c

-- `isBlank`.
unfoldable pub is_blank : List ℕ → Bool
is_blank bytes = all (λ b. b == 0x20 || b == 0x09 || b == 0x0d) bytes

-- `ollamaMeaningful`.
unfoldable pub ollama_meaningful : Json → Bool
unfolding own
ollama_meaningful j =
    has_non_empty_text (own (codes "response") j)
    || has_non_empty_text (own (codes "content") (json_or_null (own (codes "message") j)))

-- `ollamaUsage`.
unfoldable pub ollama_usage : Json → Bool
unfolding own
ollama_usage j =
    is_count (own (codes "prompt_eval_count") j) && is_count (own (codes "eval_count") j)

abbrev pub is_ollama : NdjsonProtocol → Bool
is_ollama generic_ndjson = false
is_ollama ollama = true

-- The variables of the loop over the lines.
pub record NdjsonParser : Type 0 where
  pub items : List NdjsonItem
  pub line_start : ℕ
  pub line_count : ℕ
  pub terminal_seen : Bool
  pub provider_error_seen : Bool
  pub terminal_usage_present : Bool
  pub first_meaningful : Option ℕ

abbrev has_error : Json → Bool
has_error j = not (is_none (own (codes "error") j))

unfoldable pub item_of : NdjsonOptions → CollectedStream → ℕ → NdjsonParser → Json → NdjsonItem
unfolding own ollama_usage ollama_meaningful
item_of o c offset s j =
    let failed = has_error j in
    let finished = is_ollama o.protocol && is_true (own (codes "done") j) in
    record {
      index = length s.items;
      json = j;
      raw_line_identity = o.payload_identity (slice s.line_start offset c.bytes);
      observed_at = observed_at_offset c.marks offset c.completed_at;
      done = finished;
      provider_error = failed;
      usage_present = is_ollama o.protocol && ollama_usage j;
      meaningful_output =
          not failed
          && not finished
          && (if is_ollama o.protocol then ollama_meaningful j else true);
    }

abbrev pub first_of : Option ℕ → Bool → ℕ → Option ℕ
first_of (some t) meaningful at = some t
first_of none meaningful at = if meaningful then some at else none

unfoldable pub push_item : NdjsonItem → NdjsonParser → NdjsonParser
push_item i s = record s {
  items = s.items ++ i ∷ [];
  terminal_seen = i.provider_error || i.done;
  provider_error_seen = s.provider_error_seen || i.provider_error;
  terminal_usage_present = if i.done then i.usage_present else s.terminal_usage_present;
  first_meaningful = first_of s.first_meaningful i.meaningful_output i.observed_at;
}

-- `contentEnd`: a carriage return before the line feed is not content.
unfoldable pub content_end : List ℕ → ℕ → ℕ → ℕ
content_end bytes line_start raw_end =
    if ltb line_start raw_end
    then (elim (get_elem? bytes (raw_end - 1)) [
      | none ↦ raw_end
      | some b ↦ if b == 0x0d then raw_end - 1 else raw_end
    ])
    else raw_end

abbrev pub parsed : Option Json → Result CodecError Json
parsed none = err CodecError.invalid_json
parsed (some j) = ok j

-- `parseLine`.
unfoldable pub parse_line :
    NdjsonOptions → CollectedStream → ℕ → ℕ → NdjsonParser → Result CodecError NdjsonParser
unfolding content_end is_blank item_of push_item
parse_line o c raw_end offset s =
    let raw_line = slice s.line_start (content_end c.bytes s.line_start raw_end) c.bytes in
    do
      refuse (ltb o.max_line_bytes (length raw_line)) CodecError.line_byte_limit
      refuse (is_blank raw_line) CodecError.blank_line
      require (ltb (length s.items) o.max_items) CodecError.item_limit
      refuse s.terminal_seen CodecError.terminal_order
      j ← parsed (o.parse_json raw_line)
      ok (push_item (item_of o c offset s j) (record s { line_count = s.line_count + 1 }))

-- The loop over the bytes and the line after it. `rest` is what stands at the cursor.
unfoldable pub scan_lines :
    NdjsonOptions → CollectedStream → ℕ → List ℕ → NdjsonParser → Result CodecError NdjsonParser
unfolding parse_line
scan_lines o c cursor [] s =
    if ltb s.line_start cursor then parse_line o c cursor cursor s else ok s
scan_lines o c cursor (b ∷ rest) s = elim (b == 0x0a) [
  | false ↦ scan_lines o c (cursor + 1) rest s
  | true ↦ do
    s' ← parse_line o c cursor (cursor + 1) s
    scan_lines o c (cursor + 1) rest (record s' { line_start = cursor + 1 })
]

pub data NdjsonTerminal : Type 0 where
  eof done provider_error truncated : NdjsonTerminal

pub data NdjsonUsage : Type 0 where
  present missing not_required : NdjsonUsage

abbrev pub is_done : Option NdjsonItem → Bool
is_done none = false
is_done (some i) = i.done

unfoldable pub terminal_by : NdjsonProtocol → NdjsonParser → NdjsonTerminal
terminal_by p s =
    if s.provider_error_seen
    then NdjsonTerminal.provider_error
    else if is_ollama p
    then if is_done (last? s.items) then NdjsonTerminal.done else NdjsonTerminal.truncated
    else NdjsonTerminal.eof

unfoldable pub usage_by : NdjsonProtocol → NdjsonParser → NdjsonUsage
usage_by generic_ndjson s = NdjsonUsage.not_required
usage_by ollama s = if s.terminal_usage_present then NdjsonUsage.present else NdjsonUsage.missing

pub record NdjsonResult : Type 0 where
  pub result_items : List NdjsonItem
  pub terminal : NdjsonTerminal
  pub final_usage : NdjsonUsage
  pub result_bytes : ℕ
  pub result_chunks : ℕ
  pub result_lines : ℕ
  pub result_timing : RuntimeStreamTiming

abbrev pub new_parser : NdjsonParser
new_parser = record {
  items = [];
  line_start = 0;
  line_count = 0;
  terminal_seen = false;
  provider_error_seen = false;
  terminal_usage_present = false;
  first_meaningful = none;
}

unfoldable pub parse_lines : NdjsonOptions → CollectedStream → Result CodecError NdjsonResult
unfolding scan_lines terminal_by usage_by timing
parse_lines o c = do
  s ← scan_lines o c 0 c.bytes new_parser
  ok (record {
    result_items = s.items;
    terminal = terminal_by o.protocol s;
    final_usage = usage_by o.protocol s;
    result_bytes = length c.bytes;
    result_chunks = c.total_chunks;
    result_lines = s.line_count;
    result_timing = timing c s.first_meaningful;
  })

-- `parseBoundedNdjsonStream`, under normalized options.
unfoldable pub parse_bounded_ndjson : NdjsonOptions → Source → Result CodecError NdjsonResult
unfolding collect parse_lines
parse_bounded_ndjson o source = do c ← collect o.collecting source; parse_lines o c
