-- ===== src/Server/Response.antt =====
-- src/http_server.cpp: `reason_phrase` and `format_http_response`. `std::to_string` is a parameter.
use public_cpp_laravel.Prelude.{
  ℕ, ◌==◌, List, [], ◌∷◌, ◌++◌, length, if◌then◌else◌, Text, codes, Dict,
}
use public_cpp_laravel.Http.Messages.{Response}

-- The cases of the switch.
abbrev phrases : List (ℕ × Text)
phrases =
    (200, codes "OK")
    ∷ (201, codes "Created")
    ∷ (206, codes "Partial Content")
    ∷ (301, codes "Moved Permanently")
    ∷ (302, codes "Found")
    ∷ (304, codes "Not Modified")
    ∷ (400, codes "Bad Request")
    ∷ (401, codes "Unauthorized")
    ∷ (403, codes "Forbidden")
    ∷ (404, codes "Not Found")
    ∷ (405, codes "Method Not Allowed")
    ∷ (411, codes "Length Required")
    ∷ (413, codes "Payload Too Large")
    ∷ (416, codes "Range Not Satisfiable")
    ∷ (422, codes "Unprocessable Entity")
    ∷ (431, codes "Request Header Fields Too Large")
    ∷ (500, codes "Internal Server Error")
    ∷ []

phrase_in : ℕ → List (ℕ × Text) → Text
phrase_in status [] = codes "OK"
phrase_in status ((s, phrase) ∷ rest) = if status == s then phrase else phrase_in status rest

unfoldable pub reason_phrase : ℕ → Text
unfolding phrase_in
reason_phrase status = phrase_in status phrases

abbrev line_end : Text
line_end = codes "\r\n"

unfoldable pub write_headers : Dict Text Text → Text
write_headers [] = []
write_headers ((name, value) ∷ hs) =
    name ++ (codes ": " ++ (value ++ (line_end ++ write_headers hs)))

unfoldable pub format_http_response : (ℕ → Text) → Response → Text
unfolding reason_phrase write_headers
format_http_response to_string res =
    codes "HTTP/1.1 "
    ++ (to_string res.status
        ++ (codes " "
            ++ (reason_phrase res.status
                ++ (line_end
                    ++ (write_headers res.headers
                        ++ (codes "Content-Length: "
                            ++ (to_string (length res.body)
                                ++ (line_end
                                    ++ (codes "Connection: close\r\n\r\n" ++ res.body)))))))))
