-- ===== src/Web/Page/Html.antt =====
-- src/web_server.cpp: the text of html_page.
use smallchat.Base.{List, [], ◌∷◌, Bytes, codes}

-- The lines of the literal.
unfoldable pub html_lines : List Bytes
html_lines =
    codes "<!DOCTYPE html>\n"
    ∷ codes "<html>\n"
    ∷ codes "<head>\n"
    ∷ codes "    <title>SmallChat</title>\n"
    ∷ codes "    <style>\n"
    ∷ codes
        "        body { font-family: Arial, sans-serif; max-width: 800px; margin: 0 auto; padding: 20px; }\n"
    ∷ codes "        #login-panel { display: block; }\n"
    ∷ codes "        #chat-panel { display: none; }\n"
    ∷ codes
        "        #messages { height: 300px; overflow-y: scroll; border: 1px solid #ccc; padding: 10px; margin: 10px 0; }\n"
    ∷ codes "        .message { margin: 5px 0; padding: 5px; border-radius: 5px; }\n"
    ∷ codes "        .system { color: #888; font-style: italic; }\n"
    ∷ codes "        .private { background: #e6f2ff; }\n"
    ∷ codes "        .broadcast { background: #f0f0f0; }\n"
    ∷ codes "        .my-message { background: #e6ffe6; text-align: right; }\n"
    ∷ codes "        input[type=text] { width: 70%; padding: 8px; }\n"
    ∷ codes "        button { padding: 8px 16px; }\n"
    ∷ codes "    </style>\n"
    ∷ codes "</head>\n"
    ∷ codes "<body>\n"
    ∷ codes "    <div id=\"login-panel\">\n"
    ∷ codes "        <h1>SmallChat</h1>\n"
    ∷ codes "        <input type=\"text\" id=\"username\" placeholder=\"Enter username\">\n"
    ∷ codes "        <button onclick=\"login()\">Login</button>\n"
    ∷ codes "    </div>\n"
    ∷ codes "    \n"
    ∷ codes "    <div id=\"chat-panel\">\n"
    ∷ codes "        <h2>Chat Room</h2>\n"
    ∷ codes "        <div id=\"messages\"></div>\n"
    ∷ codes "        <input type=\"text\" id=\"message-input\" placeholder=\"Enter message...\">\n"
    ∷ codes "        <button onclick=\"sendMessage()\">Send</button>\n"
    ∷ codes "        <button onclick=\"logout()\">Logout</button>\n"
    ∷ codes "    </div>\n"
    ∷ codes "    <script>\n"
    ∷ codes "        var ws;\n"
    ∷ codes "        var username = \"\";\n"
    ∷ codes "        function login() {\n"
    ∷ codes "            username = document.getElementById(\"username\").value.trim();\n"
    ∷ codes "            if (!username) return;\n"
    ∷ codes "            ws = new WebSocket(\"ws://\" + window.location.host + \"/ws\");\n"
    ∷ codes "            ws.onopen = function() {\n"
    ∷ codes "                ws.send(\"/login \" + username);\n"
    ∷ codes "                document.getElementById(\"login-panel\").style.display = \"none\";\n"
    ∷ codes "                document.getElementById(\"chat-panel\").style.display = \"block\";\n"
    ∷ codes "                document.getElementById(\"message-input\").focus();\n"
    ∷ codes "            };\n"
    ∷ codes "            ws.onmessage = function(event) {\n"
    ∷ codes "                addMessage(event.data);\n"
    ∷ codes "            };\n"
    ∷ codes "            ws.onclose = function() {\n"
    ∷ codes "                addMessage(\"[SYS] Disconnected\");\n"
    ∷ codes "                document.getElementById(\"chat-panel\").style.display = \"none\";\n"
    ∷ codes "                document.getElementById(\"login-panel\").style.display = \"block\";\n"
    ∷ codes "            };\n"
    ∷ codes "        }\n"
    ∷ codes "        function logout() {\n"
    ∷ codes "            if (ws) {\n"
    ∷ codes "                ws.send(\"/quit\");\n"
    ∷ codes "                ws.close();\n"
    ∷ codes "            }\n"
    ∷ codes "        }\n"
    ∷ codes "        function sendMessage() {\n"
    ∷ codes "            var input = document.getElementById(\"message-input\");\n"
    ∷ codes "            var message = input.value.trim();\n"
    ∷ codes "            if (message && ws) {\n"
    ∷ codes "                ws.send(message);\n"
    ∷ codes "                addMessage(\"Me: \" + message, \"my-message\");\n"
    ∷ codes "                input.value = \"\";\n"
    ∷ codes "            }\n"
    ∷ codes "        }\n"
    ∷ codes "        function addMessage(text, className) {\n"
    ∷ codes "            if (!className) className = \"broadcast\";\n"
    ∷ codes "            var div = document.createElement(\"div\");\n"
    ∷ codes "            div.className = \"message \" + className;\n"
    ∷ codes "            if (text.indexOf(\"[SYS]\") == 0) {\n"
    ∷ codes "                div.className = \"message system\";\n"
    ∷ codes "            } else if (text.indexOf(\"->\") != -1) {\n"
    ∷ codes "                div.className = \"message private\";\n"
    ∷ codes "            }\n"
    ∷ codes "            div.textContent = text;\n"
    ∷ codes "            var messagesDiv = document.getElementById(\"messages\");\n"
    ∷ codes "            messagesDiv.appendChild(div);\n"
    ∷ codes "            messagesDiv.scrollTop = messagesDiv.scrollHeight;\n"
    ∷ codes "        }\n"
    ∷ codes
        "        document.getElementById(\"message-input\").addEventListener(\"keypress\", function(e) {\n"
    ∷ codes "            if (e.keyCode == 13) sendMessage();\n"
    ∷ codes "        });\n"
    ∷ codes
        "        document.getElementById(\"username\").addEventListener(\"keypress\", function(e) {\n"
    ∷ codes "            if (e.keyCode == 13) login();\n"
    ∷ codes "        });\n"
    ∷ codes "    </script>\n"
    ∷ codes "</body>\n"
    ∷ codes "</html>\n"
    ∷ []
