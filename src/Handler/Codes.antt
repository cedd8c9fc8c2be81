-- ===== src/Handler/Codes.antt =====
-- Server/include/Network.h, namespace HTTPCodes.
use wfa.Base.{Bytes, text}

abbrev pub ok_code : Bytes
ok_code = text "200"

abbrev pub bad_request : Bytes
bad_request = text "400"

abbrev pub unauthorised : Bytes
unauthorised = text "401"

abbrev pub forbidden : Bytes
forbidden = text "403"

abbrev pub not_found : Bytes
not_found = text "404"

abbrev pub conflict : Bytes
conflict = text "409"

abbrev pub internal_error : Bytes
internal_error = text "500"
