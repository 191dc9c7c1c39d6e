-- ===== src/Http/Reader/Chunks.antt =====
-- What `write_chunk` of backend/src/http.rs writes, read by `read_chunked`.
use tldr_tv.Prelude.{ℕ, List, [], ◌∷◌, ◌++◌, list_eq, nat_eq}
use tldr_tv.Prelude.Text.{Bytes, Text}
use tldr_tv.Http.Writer.{write_chunk}
use tldr_tv.Http.Reader.{Socket, Ending, Reader}
use tldr_tv.Http.Reader.Hex.{digits}

abbrev crlf : Bytes
crlf = 13 ∷ 10 ∷ []

-- the line with the size of a chunk
abbrev size_line : ℕ → Bytes
size_line n = digits n ++ crlf

module _ (ending : Ending) (sent : Bytes) where
  -- the connection with some bytes still to come
  abbrev pub sock : Bytes → Socket
  sock b = record { bytes = b; ending = ending; sent = sent }

  -- the bytes of all chunks, one behind the other
  abbrev pub written_chunks : List Bytes → Bytes
  written_chunks [] = []
  written_chunks (c ∷ chunks) = write_chunk c ++ written_chunks chunks
