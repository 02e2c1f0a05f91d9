-- ===== src/McpServer/Serve/Guarded.antt =====
-- internal/mcpserver/handler.go and protection.go: what a request over HTTP has to be, and the
-- timeouts that it gets.
use aceryx.Prelude.{
  ℕ, zero, suc, ◌≤◌, ltb, String, Bool, true, false, not, Option, none, some, In, ◌≡◌, refl, sym,
  ap, subst, ◌∙◌, inl, inr, ◌⊎◌, Bool-cases, arith, if◌then◌else◌,
}
use aceryx.Prelude.Int.{ℤ, pos, negsuc, not_positive}
use aceryx.McpServer.{Tool, Handler, Execution, success, tools_call, called, Answer, handle_rpc}
use aceryx.McpServer.Calls.{CanCall, called_iff}
use aceryx.McpServer.Keys.{ApiKeyRecord, KeyTable, presented_key, authenticate, connection_of}
use aceryx.McpServer.Keys.Revoked.{authenticate-some}
use aceryx.McpServer.Serve.{
  read_depth, within_depth, apply_timeout, valid, HttpRequest, ServerConfig, CallContext,
  HttpAnswer, HttpStatus, HttpCode, least, some_time, wanted_of, longest_of, refused, answered,
  context_of, auth_header_of, answer_body, answer_row, serve_http,
}

-- The context of the request is past its deadline.
abbrev pub NoTimeLeft : Option ℤ → Type 0
NoTimeLeft none = ⊥
NoTimeLeft (some remaining) = not_positive remaining ≡ true

guard_passes :
    (b : Bool) (status : HttpStatus) (code : HttpCode) (table : KeyTable)
    (rest : HttpAnswer × KeyTable) (context : CallContext) (row : ApiKeyRecord) (answer : Answer)
    → (if not b then (refused status code, table) else rest).0 ≡ answered context row answer
    → (b ≡ true) × (rest.0 ≡ answered context row answer)
guard_passes true status code table rest context row answer e = (refl, e)
guard_passes false status code table rest context row answer e = cc e

module _ (matches : String → String → Bool) (key_allows tool_allows : ApiKeyRecord → Bool)
    (execute : CallContext → ApiKeyRecord → Tool → Execution) (h : Handler)
    (config : ServerConfig) where
  -- A request that ran a tool: it was posted, within the depth, with a key that matches an enabled
  -- row; and the tool is registered under the name that was called, enabled, permitted to the roles of
  -- the row and within the limits of its key.
  pub record IsServed (r : HttpRequest) (table : KeyTable) (context : CallContext)
      (row : ApiKeyRecord) (name : String) (tool : Tool) : Type 0 where
    pub posted : r.is_post ≡ true
    pub shallow : within_depth (read_depth r.header) config.max_depth ≡ true
    pub key : String
    pub presented : presented_key config.auth_type (auth_header_of config) r.header ≡ some key
    pub of_table : In row table
    pub is_enabled : row.enabled ≡ true
    pub match : matches row.key_hash key ≡ true
    pub has_context : context ≡ context_of config r
    pub can_call : CanCall h (some (connection_of row)) (key_allows row) (tool_allows row) name tool
    pub succeeds : execute context row tool ≡ success

  body-called :
      (r : HttpRequest) (found row : ApiKeyRecord) (context : CallContext) (name : String)
      (tool : Tool) (answer : Answer)
      → r.body ≡ valid (tools_call (some name))
      → answer_body matches key_allows tool_allows execute h config r found r.body
        ≡ answered context row answer
      → answer.0 ≡ called tool
      → (found ≡ row)
        × (context ≡ context_of config r)
        × CanCall h (some (connection_of row)) (key_allows row) (tool_allows row) name tool
        × (execute context row tool ≡ success)
  body-called r found row context name tool answer body served runs =
      let made =
        handle_rpc h (some (connection_of found)) (key_allows found) (tool_allows found)
          (execute (context_of config r) found) (tools_call (some name)) in
      let same : answered (context_of config r) found made ≡ answered context row answer =
        ap (answer_body matches key_allows tool_allows execute h config r found) (sym body)
        ∙ served in
      let of_context : context_of config r ≡ context = cc same in
      let of_row : found ≡ row = cc same in
      let of_answer : made ≡ answer = cc same in
      let (can, fine) =
        (called_iff h (some (connection_of found)) (key_allows found) (tool_allows found)
            (execute (context_of config r) found) name tool).0
          (ap (λ a. a.0) of_answer ∙ runs) in
      (
        of_row,
        sym of_context,
        subst (λ x. CanCall h (some (connection_of x)) (key_allows x) (tool_allows x) name tool)
            of_row can,
        ap (λ c. execute c row tool) (sym of_context)
            ∙ ap (λ x. execute (context_of config r) x tool) (sym of_row)
            ∙ fine,
      )

  row-answered :
      (r : HttpRequest) (found : Option ApiKeyRecord) (row : ApiKeyRecord) (context : CallContext)
      (name : String) (tool : Tool) (answer : Answer)
      → r.body ≡ valid (tools_call (some name))
      → answer_row matches key_allows tool_allows execute h config r found
        ≡ answered context row answer
      → answer.0 ≡ called tool
      → (found ≡ some row)
        × (context ≡ context_of config r)
        × CanCall h (some (connection_of row)) (key_allows row) (tool_allows row) name tool
        × (execute context row tool ≡ success)
  row-answered r none row context name tool answer body served runs = cc served
  row-answered r (some found) row context name tool answer body served runs =
      let (same, of_context, can, fine) =
        body-called r found row context name tool answer body served runs in
      (ap some same, of_context, can, fine)

  -- A tool that a request over HTTP ran was called by a posted request within the depth, with a key
  -- that matches an enabled row, and is registered, enabled, permitted to the row's roles and within
  -- the limits of its key.
  pub serve_http-IsServed :
      (now : ℕ) (r : HttpRequest) (table : KeyTable) (context : CallContext) (row : ApiKeyRecord)
      (name : String) (tool : Tool) (answer : Answer)
      → r.body ≡ valid (tools_call (some name))
      → (serve_http matches key_allows tool_allows execute h config now r table).0
        ≡ answered context row answer
      → answer.0 ≡ called tool
      → IsServed r table context row name tool
  unfolding serve_http
  serve_http-IsServed now r table context row name tool answer body served runs =
      let checked =
        authenticate matches now config.auth_type (auth_header_of config) r.header table in
      let (posted, e) = guard_passes r.is_post _ _ table _ context row answer served in
      let (shallow, f) =
        guard_passes (within_depth (read_depth r.header) config.max_depth) _ _ table
          (answer_row matches key_allows tool_allows execute h config r checked.0, checked.1)
          context row answer e in
      let (found, of_context, can, fine) =
        row-answered r checked.0 row context name tool answer body f runs in
      let (key, presented, i, on, match) =
        authenticate-some matches now config.auth_type (auth_header_of config) r.header table row
          found in
      record {
        posted = posted;
        shallow = shallow;
        key = key;
        presented = presented;
        of_table = i;
        is_enabled = on;
        match = match;
        has_context = of_context;
        can_call = can;
        succeeds = fine;
      }

wanted_of-bounds :
    (header_timeout : ℤ) (longest : ℕ)
    → 1 ≤ longest
    → (w : ℕ) × (wanted_of header_timeout (longest_of (pos longest)) ≡ pos w)
      × (1 ≤ w)
      × (w ≤ longest)
wanted_of-bounds (negsuc n) longest h = (longest, ground arith, h, omega arith)
wanted_of-bounds (pos zero) longest h = (longest, ground arith, h, omega arith)
wanted_of-bounds (pos (suc n)) longest h = elim (Bool-cases (ltb (suc n) longest)) [
  | inl e ↦ (suc n, ground arith, omega arith, ground arith)
  | inr e ↦ (longest, ground arith, h, omega arith)
]

some_time-bounds :
    (remaining : Option ℤ) (w longest : ℕ)
    → 1 ≤ w
    → w ≤ longest
    → (n : ℕ) × (some_time (least (pos w) remaining) ≡ pos n)
      × (1 ≤ n)
      × ((n ≤ longest) ⊎ ((n ≡ 1000000) × NoTimeLeft remaining))
some_time-bounds none w longest low high = (w, ground arith, low, inl high)
some_time-bounds (some (negsuc m)) w longest low high =
    (1000000, ground arith, omega arith, inr (refl, refl))
some_time-bounds (some (pos zero)) w longest low high =
    (1000000, ground arith, omega arith, inr (refl, refl))
some_time-bounds (some (pos (suc m))) w longest low high = elim (Bool-cases (ltb (suc m) w)) [
  | inl e ↦ (suc m, ground arith, omega arith, inl (ground arith))
  | inr e ↦ (w, ground arith, low, inl high)
]

-- The timeout of a request is above 0, and at most the server's longest one, or a millisecond where
-- no time is left before the deadline of its context, where the longest one is above 0.
pub apply_timeout_bounds :
    (remaining : Option ℤ) (header_timeout : ℤ) (longest : ℕ)
    → 1 ≤ longest
    → (n : ℕ) × (apply_timeout remaining header_timeout (pos longest) ≡ pos n)
      × (1 ≤ n)
      × ((n ≤ longest) ⊎ ((n ≡ 1000000) × NoTimeLeft remaining))
unfolding apply_timeout
apply_timeout_bounds remaining header_timeout longest h =
    let (w, e, low, high) = wanted_of-bounds header_timeout longest h in
    let (n, f, positive, within) = some_time-bounds remaining w longest low high in
    (n, ap (λ x. some_time (least x remaining)) e ∙ f, positive, within)
