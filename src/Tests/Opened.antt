-- ===== src/Tests/Opened.antt =====
-- A name for each set of definitions that the tests compute with.
use multi_client_media_strea.Base.{bytes_eq, bytes_lt, to_int}
use multi_client_media_strea.ClientSession
use multi_client_media_strea.FileManager
use multi_client_media_strea.FilePath
use multi_client_media_strea.Protocol
use multi_client_media_strea.Protocol.Decimal
use multi_client_media_strea.Protocol.Trim
use multi_client_media_strea.Server
use multi_client_media_strea.Server.Threads
use multi_client_media_strea.Socket

unfoldable pub protocol_code : Unit {0}
unfolding bytes_eq Trim.is_space Trim.is_empty Trim.skip_spaces Trim.drop_trailing Trim.trim
    Trim.span_word Decimal.to_string Protocol.to_upper Protocol.getline Protocol.classify
    Protocol.parse_line Protocol.parse_request Protocol.build_get_header
    Protocol.build_error_response
protocol_code = tt

unfoldable pub path_code : Unit {0}
unfolding bytes_eq FilePath.to_path FilePath.append FilePath.string FilePath.is_empty_path
    FilePath.lexically_relative FileManager.inside_root FileManager.refused_name
    FileManager.resolve_safe_path FileManager.get_file_size FileManager.open_binary_file
path_code = tt

unfoldable pub socket_code : Unit {0}
unfolding to_int Socket.send_all Socket.send_string Socket.send_loop Socket.recv_all
    Socket.recv_loop Socket.recv_line Socket.line_loop Socket.strip_return Socket.close
    Socket.shutdown Socket.accept Socket.set_timeouts
socket_code = tt

unfoldable pub session_code : Unit {0}
unfolding protocol_code path_code socket_code ClientSession.handle_get ClientSession.load_active
    ClientSession.stop
session_code = tt

unfoldable pub server_code : Unit {0}
unfolding session_code ClientSession.make_session Server.cleanup Threads.run Server.stop
    Threads.step Threads.stop_step Server.close_listening Server.clear_table
server_code = tt

unfoldable pub listing_code : Unit {0}
unfolding session_code bytes_lt FileManager.list_files Protocol.list_lines
    Protocol.build_list_response ClientSession.handle_list
listing_code = tt

unfoldable pub run_code : Unit {0}
unfolding session_code listing_code ClientSession.run ClientSession.run_loop ClientSession.respond
    Protocol.build_ok_response
run_code = tt
