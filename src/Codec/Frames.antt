-- ===== src/Codec/Frames.antt =====
-- src/common.cpp: the other encodings of ChatProtocol, and the length and type of a binary header.
use smallchat.Base.{
  ℕ, ◌+◌, ◌-◌, ◌*◌, Bool, List, [], ◌∷◌, ◌++◌, Bytes, codes, length, drop, ltb, if◌then◌else◌,
}
use smallchat.Codec.Base64.{base64_encode}
use smallchat.Codec.Message.{bar, newline}
use smallchat.Std.Decimal.{print, ℤ, pos, negsuc}

-- Fields, each behind a '|', and the newline.
abbrev pub fields : List Bytes → Bytes
fields [] = newline ∷ []
fields (f ∷ fs) = bar ∷ (f ++ fields fs)

-- Lines, each with its newline.
abbrev lines : List Bytes → Bytes
lines [] = []
lines (l ∷ ls) = l ++ (newline ∷ lines ls)

abbrev flag : Bool → Bytes
flag b = if b then codes "1" else codes "0"

unfoldable pub encode_command : Bytes → Bytes
encode_command command = command ++ (newline ∷ [])

unfoldable pub encode_system_message : Bytes → Bytes
encode_system_message message = codes "SYS" ++ fields (message ∷ [])

unfoldable pub encode_welcome : Bytes
encode_welcome =
    codes "WELCOME"
    ++ fields (
        codes "Welcome to SmallChat Server!"
        ∷ codes "Commands: /login <name>, /users, /whisper <name> <msg>, /help, /quit"
        ∷ [])

unfoldable pub encode_user_list : List Bytes → Bytes
encode_user_list users = codes "USERS" ++ fields (print (length users) ∷ users)

unfoldable pub encode_error : Bytes → Bytes
encode_error error = codes "ERROR" ++ fields (error ∷ [])

unfoldable pub encode_success : Bytes → Bytes
encode_success message = codes "OK" ++ fields (message ∷ [])

unfoldable pub encode_login_with_pass : Bytes → Bytes → Bytes
encode_login_with_pass username password =
    codes "LOGIN_WITH_PASS" ++ fields (username ∷ password ∷ [])

unfoldable pub encode_register : Bytes → Bytes → Bytes
encode_register username password = codes "REGISTER" ++ fields (username ∷ password ∷ [])

unfoldable pub encode_create_room : Bytes → Bool → Bytes → Bytes
encode_create_room room_name is_private password =
    codes "CREATE_ROOM" ++ fields (room_name ∷ flag is_private ∷ password ∷ [])

unfoldable pub encode_join_room : Bytes → Bytes → Bytes
encode_join_room room_name password = codes "JOIN_ROOM" ++ fields (room_name ∷ password ∷ [])

unfoldable pub encode_leave_room : Bytes → Bytes
encode_leave_room room_name = codes "LEAVE_ROOM" ++ fields (room_name ∷ [])

unfoldable pub encode_room_list : List Bytes → Bytes
encode_room_list rooms = codes "ROOM_LIST" ++ (fields (print (length rooms) ∷ []) ++ lines rooms)

unfoldable pub encode_room_members : Bytes → List Bytes → Bytes
encode_room_members room_name members =
    codes "ROOM_MEMBERS" ++ (fields (room_name ∷ print (length members) ∷ []) ++ lines members)

unfoldable pub encode_file_transfer : Bytes → Bytes → Bytes → ℕ → Bytes
encode_file_transfer sender receiver file_name file_size =
    codes "FILE_TRANSFER" ++ fields (sender ∷ receiver ∷ file_name ∷ print file_size ∷ [])

unfoldable pub encode_file_request : Bytes → Bytes → Bytes → Bytes
encode_file_request sender receiver file_name =
    codes "FILE_REQUEST" ++ fields (sender ∷ receiver ∷ file_name ∷ [])

unfoldable pub encode_file_response : Bytes → Bytes → Bytes → Bool → Bytes
encode_file_response sender receiver file_name accepted =
    codes "FILE_RESPONSE" ++ fields (sender ∷ receiver ∷ file_name ∷ flag accepted ∷ [])

unfoldable pub encode_file_data : Bytes → Bytes → Bytes → ℕ → Bytes → Bool → Bytes
encode_file_data sender receiver file_name file_offset file_data complete =
    codes "FILE_DATA"
    ++ fields (
        sender
        ∷ receiver
        ∷ file_name
        ∷ print file_offset
        ∷ base64_encode file_data
        ∷ flag complete
        ∷ [])

unfoldable pub encode_read_receipt : Bytes → Bytes → Bytes
encode_read_receipt message_id user = codes "READ_RECEIPT" ++ fields (message_id ∷ user ∷ [])

-- HEADER_SIZE
abbrev header_size : ℕ
header_size = 8

-- memcpy of four bytes and ntohl: the number in network order.
network_u32 : Bytes → ℕ
network_u32 (a ∷ b ∷ c ∷ d ∷ _) = ((a * 256 + b) * 256 + c) * 256 + d
network_u32 _ = 0

unfoldable pub get_message_length : Bytes → ℕ
unfolding network_u32
get_message_length s = if ltb (length s) header_size then 0 else network_u32 s

-- ntohl's uint32_t, returned as an int.
abbrev as_int : ℕ → ℤ
as_int n = if ltb n 0x8000_0000 then pos n else negsuc (0xffff_ffff - n)

unfoldable pub get_message_type : Bytes → ℤ
unfolding network_u32
get_message_type s =
    if ltb (length s) header_size then negsuc 0 else as_int (network_u32 (drop 4 s))
