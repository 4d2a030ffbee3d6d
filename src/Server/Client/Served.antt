-- ===== src/Server/Client/Served.antt =====
-- From a request's bytes to the kernel's answer.
use public_cpp_laravel.Prelude.{
  ℕ, ◌+◌, ◌≤◌, ◌≡◌, refl, ap, sym, subst, ◌∙◌, false, List, [], ◌∷◌, ◌++◌, codes, length, Text, All,
  Dict, append_assoc,
}
use public_cpp_laravel.Websocket.Connection.{flat}
use public_cpp_laravel.Http.Messages.{Request, Response, response}
use public_cpp_laravel.Http.Url.RoundTrip.{BytePair, insert_all}
use public_cpp_laravel.Server.Request.{Strtoull, blank_line, parse_http_request}
use public_cpp_laravel.Server.Request.RoundTrip.{
  request_line, target_text, header_lines, IsHeader, IsLine, find_text-first,
  parse_http_request-request_line,
}
use public_cpp_laravel.Server.Response.{reason_phrase, write_headers, format_http_response}
use public_cpp_laravel.Server.Reading.{Limits, expect, judge, read_request}
use public_cpp_laravel.Server.Reading.Whole.{read_request-Complete}
use public_cpp_laravel.Server.Client.{
  Handled, handled, threw, Outcome, answered, is_websocket_upgrade, catch, run_kernel, on_request,
  on_read, handle_client,
}

-- A response on the wire: status line, headers in the order of the map, the length of the body, the
-- close of the connection, a blank line and the body, the lines ended by a carriage return and a line
-- feed. The reason phrase is the code's table.
abbrev pub header_text : Dict Text Text → Text
header_text [] = []
header_text ((name, value) ∷ hs) =
    name ++ (codes ": " ++ (value ++ (codes "\r\n" ++ header_text hs)))

abbrev pub response_text : (ℕ → Text) → Response → Text
response_text to_string res =
    codes "HTTP/1.1 "
    ++ (to_string res.status
        ++ (codes " "
            ++ (reason_phrase res.status
                ++ (codes "\r\n"
                    ++ (header_text res.headers
                        ++ (codes "Content-Length: "
                            ++ (to_string (length res.body)
                                ++ (codes "\r\n"
                                    ++ (codes "Connection: close\r\n\r\n" ++ res.body)))))))))

write_headers_lem : (hs : Dict Text Text) → write_headers hs ≡ header_text hs
unfolding write_headers
write_headers_lem [] = refl
write_headers_lem ((name, value) ∷ hs) =
    ap (λ t. name ++ (codes ": " ++ (value ++ (codes "\r\n" ++ t)))) (write_headers_lem hs)

format_http_response_lem :
    (to_string : ℕ → Text) (res : Response)
    → format_http_response to_string res ≡ response_text to_string res
unfolding format_http_response
format_http_response_lem to_string res =
    ap
      (λ t.
        codes "HTTP/1.1 "
        ++ (to_string res.status
            ++ (codes " "
                ++ (reason_phrase res.status
                    ++ (codes "\r\n"
                        ++ (t
                            ++ (codes "Content-Length: "
                                ++ (to_string (length res.body)
                                    ++ (codes "\r\n"
                                        ++ (codes "Connection: close\r\n\r\n" ++ res.body))))))))))
      (write_headers_lem res.headers)

-- How a kernel's outcome leaves the server: the response that it gave, or one of status 500 where it
-- threw.
abbrev pub LeavesAs : {S : Type 0} → (ℕ → Text) → Handled S → Outcome × S → Type 0
LeavesAs to_string (handled res s) r = r ≡ (answered (response_text to_string res), s)
LeavesAs to_string (threw s) r =
    (res : Response) × (res.status ≡ 500) × (r ≡ (answered (response_text to_string res), s))

module _ {S : Type 0} (to_string : ℕ → Text) (kernel : Request → S → Handled S) where
  run_kernel-LeavesAs :
      (o : Handled S)
      → LeavesAs to_string o (
        answered (format_http_response to_string (catch to_string kernel o).0),
        (catch to_string kernel o).1,
      )
  unfolding catch response
  run_kernel-LeavesAs (handled res s) =
      λ i. (answered (format_http_response_lem to_string res i), s)
  run_kernel-LeavesAs (threw s) =
      let res : Response = response 500 (codes "Internal Server Error") in
      (res, refl, λ i. (answered (format_http_response_lem to_string res i), s))

module _ (num : Strtoull) (limits : Limits) (method path version body remote_addr : Text)
    (kvs hs : List (Text × Text)) where
  abbrev pub head : Text
  head = request_line method (target_text path kvs) version ++ header_lines hs

  -- The request that the client means.
  abbrev pub sent : Request
  sent = record {
    method = method;
    path = path;
    route_params = [];
    headers = insert_all hs [];
    body = body;
    cookies = [];
    query = insert_all kvs [];
    remote_addr = remote_addr;
  }

  run_kernel-answered :
      {S : Type 0} (to_string : ℕ → Text) (kernel : Request → S → Handled S)
      (endpoints : Dict Text (Unit {0})) (incoming : List Text) (s : S)
      → IsLine method path version
      → All BytePair kvs
      → All IsHeader hs
      → judge num limits head ≡ expect (length (head ++ (blank_line ++ body)))
      → length head + 3 ≤ limits.max_header_bytes
      → flat incoming ≡ head ++ (blank_line ++ body)
      → is_websocket_upgrade sent ≡ false
      → handle_client to_string kernel num limits endpoints remote_addr incoming s ≡ (
        answered (format_http_response to_string (catch to_string kernel (kernel sent s)).0),
        (catch to_string kernel (kernel sent s)).1,
      )
  unfolding handle_client on_read on_request run_kernel
  run_kernel-answered to_string kernel endpoints incoming s line pairs headers j fits cut plain =
      let (done, read) =
        read_request-Complete num limits head body incoming
          (find_text-first method path version body kvs hs line pairs headers) j fits cut in
      let first : Text = request_line method (target_text path kvs) version in
      ap
        (λ st.
          on_read to_string kernel endpoints remote_addr st (read_request num limits incoming).bytes
            s)
        done
      ∙ ap (λ b. on_request to_string kernel endpoints remote_addr (parse_http_request b) s)
          (read ∙ append_assoc first (header_lines hs) (blank_line ++ body))
      ∙ ap (λ r. on_request to_string kernel endpoints remote_addr r s)
          (parse_http_request-request_line method path version body kvs hs line pairs headers)
      ∙ rw plain refl

  -- A well-formed request that the server's limits accept with the length of its body, and that asks
  -- for no upgrade, is answered by the kernel: however the network cuts its bytes, the kernel gets the
  -- request that the client means with the peer's address, and what is sent is the text of the
  -- kernel's response, with its status and the server's phrase for it, its headers, the length of its
  -- body and the body, or the text of one with status 500 where the kernel throws; the state is the one
  -- that the kernel left.
  pub handle_client-LeavesAs :
      {S : Type 0} (to_string : ℕ → Text) (kernel : Request → S → Handled S)
      (endpoints : Dict Text (Unit {0})) (incoming : List Text) (s : S)
      → IsLine method path version
      → All BytePair kvs
      → All IsHeader hs
      → judge num limits head ≡ expect (length (head ++ (blank_line ++ body)))
      → length head + 3 ≤ limits.max_header_bytes
      → flat incoming ≡ head ++ (blank_line ++ body)
      → is_websocket_upgrade sent ≡ false
      → LeavesAs to_string
          (kernel sent s)
          (handle_client to_string kernel num limits endpoints remote_addr incoming s)
  handle_client-LeavesAs to_string kernel endpoints incoming s line pairs headers j fits cut plain =
      subst (LeavesAs to_string (kernel sent s))
        (sym (
          run_kernel-answered to_string kernel endpoints incoming s line pairs headers j fits cut
            plain))
        (run_kernel-LeavesAs to_string kernel (kernel sent s))
