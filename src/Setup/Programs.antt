-- ===== src/Setup/Programs.antt =====
-- udmuser_srv.cpp and udmuser_cl.cpp: the two `main` functions over their arguments, which are texts,
-- the name of the program first. The result is the exit status.
use udm.Base.{ℕ, ◌==◌, ltb, List, [], ◌∷◌, if◌then◌else◌}
use udm.Wire.{tx, rx, in_mode, out_mode}
use udm.World.{M, Run, ok, halt, thrown, fault, DataSource, pure, stop, ◌>>=◌, ◌>>◌}
use udm.Setup.Text.{port_of}
use udm.Setup.Context.{
  io_context, fetch_addresses, udm_socket, udm_bind, open_source, set_source, set_sink, udm_start,
  resolve,
}

-- `catch (std::exception& e)`: the message is printed, and the program ends with status 0.
abbrev caught : Run ℕ → Run ℕ
caught (halt thrown w) = ok 0 w
caught r = r

unfoldable pub catch_exception : M ℕ → M ℕ
catch_exception m w = caught (m w)

-- The argument that names the file. Without one, a text is copied to where an uninitialised pointer
-- points.
abbrev file_argument : List (List ℕ) → M (List ℕ)
file_argument (program ∷ port ∷ name ∷ []) = pure name
file_argument _ = stop fault

-- What the server does with its file: an empty one is not sent.
unfoldable pub serve : ℕ → DataSource → M ℕ
serve fuel file =
    if ltb 0 file.file_size then (do set_source file; udm_start fuel tx; pure 0) else pure 0

-- The body of the server's `try`.
unfoldable pub server_body : ℕ → List (List ℕ) → List ℕ → M ℕ
server_body fuel argv service = do
  addr ← fetch_addresses (port_of service)
  fd ← udm_socket addr
  udm_bind addr
  filename ← file_argument argv
  file ← open_source filename in_mode
  serve fuel file

-- `main` of udmuser_srv.cpp
unfoldable pub server : ℕ → List (List ℕ) → M ℕ
server fuel (program ∷ service ∷ rest) = do
  io_context
  catch_exception (server_body fuel (program ∷ service ∷ rest) service)
server fuel _ = do io_context; pure 1

-- The body of the client's `try`.
unfoldable pub client_body : ℕ → List ℕ → List ℕ → List ℕ → M ℕ
client_body fuel host service name = do
  endpoints ← resolve host service
  fd ← udm_socket endpoints
  if fd == 0
      then pure 0
      else do file ← open_source name out_mode; set_sink file; udm_start fuel rx; pure 0

-- `main` of udmuser_cl.cpp
unfoldable pub client : ℕ → List (List ℕ) → M ℕ
client fuel (program ∷ host ∷ service ∷ name ∷ []) = do
  io_context
  catch_exception (client_body fuel host service name)
client fuel _ = do io_context; pure 1
